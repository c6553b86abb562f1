-- ===== src/Websocket/RecvQueue.antt =====
-- The receive side of inc/websocket_session_base.hpp: one read at a time, into a node that is at the
-- back of the receive queue and is not yet a message.
pub mod Handlers
pub mod Steps
use boost_web.Common.{
  ℕ, ◌≤◌, ◌≡◌, refl, ◌∙◌, Bool, true, false, List, [], ◌∷◌, Option, none, some, length,
  append_assoc, arith, if_cases, ◌-◌, ◌+◌, Bytes, ◌%◌, size_mod, subst, sym,
}
use boost_web.Errors.{ErrorCode, success, stream_truncated, websocket_closed, failed}
use boost_web.Websocket.Members
use boost_web.Websocket.Members.{drop_front}
use boost_web.Websocket.Session.{BufferNode, Session}
use boost_web.Websocket.Session
use boost_web.Websocket.Service.{
  Service, Stage, Callback, received, sent, connected, errored, Program,
}
use boost_web.Websocket.Connection.{
  Connection, start, accept, call, report, run, on_accept, message_received, received_into,
  recv_failed, on_recv, send_failed, node_sent, sent_from, on_send, on_close, count_received,
  pop_sent, mark_closed, perform, send_buffer_fill, eof,
}
use boost_web.Websocket.Frame.{perform-Frame}
use boost_web.Websocket.Events.{
  Step, accepted, read, read_failed, wrote, write_failed, closed, posted, filled_outside, Reachable,
  server, client, next, end_read, deliver, end_write, end_read, deliver,
}

-- The queue holds `spare` nodes beside the messages that recv_queue_size counts.
abbrev pub Counts : ℕ → List BufferNode → ℕ → Type 0
Counts spare queue size = (n : ℕ) × (length queue ≡ n + spare) × (size ≡ n % size_mod)

drop_front-Counts :
    (s : Session) (queue : List BufferNode)
    → s.recv_queue ≡ queue
    → Counts 0 queue s.recv_queue_size
    → let s' = (drop_front s queue).0 in Counts 0 s'.recv_queue s'.recv_queue_size
drop_front-Counts s [] e c = subst (λ q. Counts 0 q s.recv_queue_size) (sym e) c
drop_front-Counts s (_ ∷ rest) e (n, l, c) = (n - 1, omega arith, omega arith)

module _ {W : Type 0} where
  -- A callback that makes no call of recv_buffer_drop.
  abbrev pub NoDrop : Program W → Type 0
  NoDrop (Program.answer b world) = Unit
  NoDrop Program.assertion_failed = Unit
  NoDrop (Program.set_user_data user_data p) = NoDrop p
  NoDrop (Program.get_user_data p) = (n : ℕ) → NoDrop (p n)
  NoDrop (Program.get_host_address p) = (ip : Bytes) (port : ℕ) → NoDrop (p ip port)
  NoDrop (Program.get_peer_address p) = (ip : Bytes) (port : ℕ) → NoDrop (p ip port)
  NoDrop (Program.recv_queue_size p) = (n : ℕ) → NoDrop (p n)
  NoDrop (Program.recv_buffer_has_data p) = (b : Bool) → NoDrop (p b)
  NoDrop (Program.recv_buffer_data_is_text p) = (b : Bool) → NoDrop (p b)
  NoDrop (Program.recv_buffer_data p) = (d : Option Bytes) → NoDrop (p d)
  NoDrop (Program.recv_buffer_size p) = (n : ℕ) → NoDrop (p n)
  NoDrop (Program.recv_buffer_drop p) = ⊥
  NoDrop (Program.send_queue_size p) = (n : ℕ) → NoDrop (p n)
  NoDrop (Program.send_buffer_fill is_text content p) = (b : Bool) → NoDrop (p b)
  NoDrop (Program.close p) = NoDrop p

  abbrev pub Counted : ℕ → Connection W → Type 0
  Counted spare k = Counts spare k.session.recv_queue k.session.recv_queue_size

  -- With no read outstanding any callback keeps the count.
  pub perform-Counted : (p : Program W) (k : Connection W) → Counted 0 k → Counted 0 (perform p k).1
  unfolding perform
  perform-Counted (Program.answer b world) k c = c
  perform-Counted Program.assertion_failed k c = c
  perform-Counted (Program.set_user_data user_data p) k c =
      perform-Counted p (record k { session = Members.set_user_data user_data k.session }) c
  perform-Counted (Program.get_user_data p) k c = perform-Counted (p _) k c
  perform-Counted (Program.get_host_address p) k c = perform-Counted (p _ _) k c
  perform-Counted (Program.get_peer_address p) k c = perform-Counted (p _ _) k c
  perform-Counted (Program.recv_queue_size p) k c = perform-Counted (p _) k c
  perform-Counted (Program.recv_buffer_has_data p) k c = perform-Counted (p _) k c
  perform-Counted (Program.recv_buffer_data_is_text p) k c = perform-Counted (p _) k c
  perform-Counted (Program.recv_buffer_data p) k c = perform-Counted (p _) k c
  perform-Counted (Program.recv_buffer_size p) k c = perform-Counted (p _) k c
  perform-Counted (Program.recv_buffer_drop p) k c =
      let r = Members.recv_buffer_drop k.session in
      perform-Counted (p r.1) (record k { session = r.0 })
        (drop_front-Counts k.session k.session.recv_queue refl c)
  perform-Counted (Program.send_queue_size p) k c = perform-Counted (p _) k c
  perform-Counted (Program.send_buffer_fill is_text content p) k c =
      perform-Counted (p true) (send_buffer_fill is_text content k).0 c
  perform-Counted (Program.close p) k c = perform-Counted p (eof k) c

  -- A callback that drops nothing leaves the receive queue as it was.
  abbrev pub Kept : Connection W → Connection W → Type 0
  Kept k k' =
      (k'.session.recv_queue ≡ k.session.recv_queue)
      × (k'.session.recv_queue_size ≡ k.session.recv_queue_size)

  pub perform-Kept : (p : Program W) (k : Connection W) → NoDrop p → Kept k (perform p k).1
  unfolding perform
  perform-Kept (Program.answer b world) k d = (refl, refl)
  perform-Kept Program.assertion_failed k d = (refl, refl)
  perform-Kept (Program.set_user_data user_data p) k d =
      perform-Kept p (record k { session = Members.set_user_data user_data k.session }) d
  perform-Kept (Program.get_user_data p) k d = perform-Kept (p _) k (d _)
  perform-Kept (Program.get_host_address p) k d = perform-Kept (p _ _) k (d _ _)
  perform-Kept (Program.get_peer_address p) k d = perform-Kept (p _ _) k (d _ _)
  perform-Kept (Program.recv_queue_size p) k d = perform-Kept (p _) k (d _)
  perform-Kept (Program.recv_buffer_has_data p) k d = perform-Kept (p _) k (d _)
  perform-Kept (Program.recv_buffer_data_is_text p) k d = perform-Kept (p _) k (d _)
  perform-Kept (Program.recv_buffer_data p) k d = perform-Kept (p _) k (d _)
  perform-Kept (Program.recv_buffer_size p) k d = perform-Kept (p _) k (d _)
  perform-Kept (Program.recv_buffer_drop p) k d = absurd d
  perform-Kept (Program.send_queue_size p) k d = perform-Kept (p _) k (d _)
  perform-Kept (Program.send_buffer_fill is_text content p) k d =
      perform-Kept (p true) (send_buffer_fill is_text content k).0 (d true)
  perform-Kept (Program.close p) k d = perform-Kept p (eof k) d
