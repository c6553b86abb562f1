-- ===== src/TestService/Chat/Conversation.antt =====
-- A conversation of two ends of TestService (test/test_service.cpp), each on its connection
-- (inc/websocket_session_base.hpp): what is done, in which order, and what should come of it.
pub mod Turns
pub mod Whole
use boost_web.Common.{
  ℕ, zero, suc, ◌+◌, ◌*◌, ◌==◌, ◌<◌, ◌≤◌, ◌≡◌, refl, sym, ◌∙◌, ◌-◌, ap, subst, leb, decrement, ◌||◌,
  ltb, Bool, true, false, List, [], ◌∷◌, ◌++◌, Option, none, some, length, increment, size_mod,
  arith,
}
use boost_web.Address.{Address}
use boost_web.Errors.{success}
use boost_web.Websocket.Members
use boost_web.Websocket.Session
use boost_web.Websocket.Session.{BufferNode, Session}
use boost_web.Websocket.Service.{Service, sent, received, connected, accepted}
use boost_web.Websocket.Connection.{
  Connection, start, run, on_accept, on_recv, on_send, on_post, perform, call, then_recv,
  message_received, recv, eof, send_buffer_fill,
}
use boost_web.Websocket.Events.{deliver, end_write}
use boost_web.TestService.Chat.{
  TestService, test_service, message, msg_len, insert_connection, send_message, send_count,
  send_finish, recv_message, check_message, drop_and_send, same_kind, is_expected,
}
use boost_web.TestService.Chat.Blocks.{is_expected-message}

-- What the ends said to each other, and how they are left: the one that has nothing to send, the other
abbrev pub Talk : Type 0 → Type 0
Talk W = List BufferNode × Connection W × Connection W

abbrev pub turn : {W : Type 0} → List BufferNode → Option (Talk W) → Talk W → Option (Talk W)
turn [] later over = some over
turn (node ∷ _) none over = none
turn (node ∷ _) (some (said, last, other)) over = some (node ∷ said, last, other)

module _ {W : Type 0} (sv : Service W) where
  -- The oldest posted node is queued, and written whole.
  abbrev pub transmit : List BufferNode → Connection W → Connection W
  transmit [] k = k
  transmit (node ∷ rest) k =
      on_send sv success (length node.buffer)
        (end_write node (on_post node (record k { posted = rest })))

  -- It comes in at the other end.
  abbrev pub hear : List BufferNode → Connection W → Connection W
  hear [] k = k
  hear (node ∷ rest) k = on_recv sv success node.is_text (deliver node.is_text node.buffer k)

  -- The two ends take turns, until the one whose turn it is has nothing to send; `none` is that the fuel
  -- has run out.
  abbrev pub converse : ℕ → Connection W → Connection W → Option (Talk W)
  converse zero speaker listener = none
  converse (suc fuel) speaker listener =
      let later = converse fuel (hear speaker.posted listener) (transmit speaker.posted speaker) in
      turn speaker.posted later ([], speaker, listener)

abbrev pub node_of : Bool → ℕ → BufferNode
node_of is_text count = record { is_text = is_text; buffer = message count }

abbrev pub placeholder : BufferNode
placeholder = record { is_text = true; buffer = [] }

-- Neither an assertion has failed nor is async_close outstanding.
abbrev pub Calm : Connection TestService → Type 0
Calm k = (k.aborted ≡ false) × (k.closing ≡ 0)

-- It has nothing to send, and one async_close is outstanding.
abbrev pub Closes : Connection TestService → Type 0
Closes k = (k.posted ≡ []) × (k.aborted ≡ false) × (k.closing ≡ 1)

-- So many messages, the first one of a count
abbrev pub messages : Bool → ℕ → ℕ → List BufferNode
messages text first zero = []
messages text first (suc n) = node_of text first ∷ messages text (first + 1) n

-- They say so many messages, the first one of a count, and then the last listener closes its connection.
abbrev pub Says : Bool → ℕ → ℕ → Option (Talk TestService) → Type 0
Says text first n talk =
    (last other : Connection TestService) × (talk ≡ some (messages text first n, last, other))
    × Closes last
    × Calm other

-- A client of TestService that has just connected
abbrev pub asking : ℕ → TestService → Address → Connection TestService
asking identity t address = run test_service identity (start t (Session.new address))

-- The end that it has connected to, once it is accepted
abbrev pub answering : TestService → Address → Connection TestService
answering t address = on_accept test_service success (start t (Session.new address))
