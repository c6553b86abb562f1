-- ===== src/Websocket/Events.antt =====
-- What the event loop does with a connection of inc/websocket_session_base.hpp: it ends an
-- outstanding operation and runs the completion handler, in any order that the stream brings about.
use boost_web.Common.{
  ℕ, suc, ◌≤◌, ◌≡◌, Bool, true, false, List, [], ◌∷◌, ◌++◌, none, some, Bytes, length, set_last,
}
use boost_web.Address.{Address}
use boost_web.Errors.{ErrorCode, success, failed}
use boost_web.Websocket.Session
use boost_web.Websocket.Session.{BufferNode, Session}
use boost_web.Websocket.Service.{Service}
use boost_web.Websocket.Connection.{
  Connection, start, accept, run, on_accept, on_recv, on_send, on_close, on_post, send_buffer_fill,
}

-- async_read has put `content` into the buffer that it was given.
abbrev pub fill_last : Bytes → List BufferNode → List BufferNode
fill_last content = set_last λ node. record node { buffer = content }

module _ {W : Type 0} where
  -- async_read ends, with `content` in the last node.
  abbrev pub end_read : Bytes → Connection W → Connection W
  end_read content k = record k {
    reading = false;
    session = record k.session { recv_queue = fill_last content k.session.recv_queue };
  }

  -- async_read has delivered a whole message.
  abbrev pub deliver : Bool → Bytes → Connection W → Connection W
  deliver got_text content k = record (end_read content k) { arrived = k.arrived ++ message ∷ [] }
    where
      message : BufferNode
      message = record { is_text = got_text; buffer = content }

  -- async_write has ended, with all of `node` on the wire.
  abbrev pub end_write : BufferNode → Connection W → Connection W
  end_write node k = record k { writing = none; written = k.written ++ node ∷ [] }

module _ {W : Type 0} (sv : Service W) where
  -- One round of the event loop. A write that ends well has written all bytes, as is documented of
  -- async_write. Other threads may call send_buffer_fill at any time.
  pub data Step (k : Connection W) : Connection W → Type 0 where
    accepted :
        (ec : ErrorCode)
        → k.accepting ≡ true
        → Step k (on_accept sv ec (record k { accepting = false }))
    read :
        (got_text : Bool) (content : Bytes)
        → k.reading ≡ true
        → Step k (on_recv sv success got_text (deliver got_text content k))
    read_failed :
        (ec : ErrorCode) (got_text : Bool) (content : Bytes)
        → failed ec ≡ true
        → k.reading ≡ true
        → Step k (on_recv sv ec got_text (end_read content k))
    wrote :
        (node : BufferNode) (bytes : ℕ)
        → k.writing ≡ some node
        → length node.buffer ≤ bytes
        → Step k (on_send sv success bytes (end_write node k))
    write_failed :
        (ec : ErrorCode) (node : BufferNode) (bytes : ℕ)
        → failed ec ≡ true
        → k.writing ≡ some node
        → Step k (on_send sv ec bytes (record k { writing = none }))
    closed :
        (ec : ErrorCode) (n : ℕ)
        → k.closing ≡ suc n
        → Step k (on_close sv ec (record k { closing = n }))
    posted :
        (node : BufferNode) (rest : List BufferNode)
        → k.posted ≡ node ∷ rest
        → Step k (on_post node (record k { posted = rest }))
    filled_outside :
        (is_text : Bool) (content : Bytes) → Step k (send_buffer_fill is_text content k).0

  -- The states that a connection gets into, from either way of making it.
  pub data Reachable : Connection W → Type 0 where
    server :
        (world : W) (address : Address) → Reachable (accept (start world (Session.new address)))
    client :
        (identity : ℕ) (world : W) (address : Address)
        → Reachable (run sv identity (start world (Session.new address)))
    next : {k k' : Connection W} → Reachable k → Step k k' → Reachable k'

  -- Of the rounds of the event loop, all but a call of send_buffer_fill by another thread.
  abbrev pub is_inside : {k k' : Connection W} → Step k k' → Bool
  is_inside (filled_outside is_text content) = false
  is_inside _ = true
