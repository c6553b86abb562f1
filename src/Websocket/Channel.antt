-- ===== src/Websocket/Channel.antt =====
-- What a websocket connection (inc/websocket_session_base.hpp) promises to its sender: a channel, which
-- takes messages in and gives them on in order.
pub mod Growth
pub mod Refines
use boost_web.Common.{◌≡◌, List, [], ◌∷◌, ◌++◌}
use boost_web.Websocket.Session.{BufferNode}
use boost_web.Websocket.Connection.{Connection}

pub record Channel : Type 0 where
  pub pending : List BufferNode  -- taken in and not given on, oldest first
  pub given : List BufferNode  -- oldest first

-- What a channel does, with the messages that it takes in meanwhile: it takes one in, or it gives the
-- oldest one on, again and again.
pub data Acts : Channel → List BufferNode → Channel → Type 0 where
  stay : {c : Channel} → Acts c [] c
  take_in :
      {c c' : Channel} {taken : List BufferNode} (node : BufferNode)
      → Acts (record c { pending = c.pending ++ node ∷ [] }) taken c'
      → Acts c (node ∷ taken) c'
  give_on :
      {c c' : Channel} {taken : List BufferNode} (node : BufferNode) (rest : List BufferNode)
      → c.pending ≡ node ∷ rest
      → Acts (record { pending = rest; given = c.given ++ node ∷ [] }) taken c'
      → Acts c taken c'

abbrev pub empty : Channel
empty = record { pending = []; given = [] }

-- The channel that a connection is: the posted nodes follow those of the send queue.
abbrev pub channel : {W : Type 0} → Connection W → Channel
channel k = record { pending = k.session.send_queue ++ k.posted; given = k.written }
