-- ===== src/Websocket/Connection.antt =====
-- inc/websocket_session_base.hpp: the operations and completion handlers of WebsocketSessionBase.
-- The handlers of one connection run one at a time, on its strand. `Connection` is the session with
-- what it has outstanding there: the operations that it started on the stream, and the posted nodes.
use boost_web.Common.{
  ℕ, ◌+◌, Bool, true, false, ◌||◌, List, [], ◌∷◌, ◌++◌, Option, none, some, Bytes, length, drop,
  increment, decrement, set_last, ltb, ◌==◌, if◌then◌else◌,
}
use boost_web.Errors.{ErrorCode, failed, is_truncated, is_closed}
use boost_web.Websocket.Members
use boost_web.Websocket.Session.{BufferNode, Session}
use boost_web.Websocket.Service.{
  Program, Service, Stage, Callback, connected, accepted, received, sent, closed, errored,
}

pub record Connection (W : Type 0) : Type 0 where
  pub session : Session
  pub world : W  -- the service's own state
  pub accepting : Bool  -- async_accept is outstanding
  pub reading : Bool  -- async_read is outstanding, into the last node of recv_queue
  pub writing : Option BufferNode  -- what async_write was given, while it is outstanding
  pub closing : ℕ  -- how many async_close are outstanding
  pub posted : List BufferNode  -- the nodes on their way to on_post, oldest first
  pub callbacks : List Callback  -- made so far, newest first
  pub filled : List BufferNode  -- given to send_buffer_fill so far, oldest first
  pub written : List BufferNode  -- whose async_write has ended well, oldest first
  pub arrived : List BufferNode  -- messages that async_read has delivered, oldest first
  pub recv_fault : Bool  -- on_recv found no node, or recv overlapped a read
  pub send_fault : Bool  -- send or on_send found no node, or send overlapped a write
  pub aborted : Bool  -- an assert(false) of the service was reached

-- The constructors' state: nothing is outstanding.
abbrev pub start : {W : Type 0} → W → Session → Connection W
start world s = record {
  session = s;
  world = world;
  accepting = false;
  reading = false;
  writing = none;
  closing = 0;
  posted = [];
  callbacks = [];
  filled = [];
  written = [];
  arrived = [];
  recv_fault = false;
  send_fault = false;
  aborted = false;
}

abbrev pub mark_text : Bool → BufferNode → BufferNode
mark_text got_text node = record node { is_text = got_text }

module _ {W : Type 0} where
  -- WebsocketSessionBase::eof, and close(), which only calls it.
  unfoldable pub eof : Connection W → Connection W
  eof k = record k { closing = k.closing + 1 }

  -- send_buffer_fill: the node is posted to the strand, and the answer is always true.
  unfoldable pub send_buffer_fill : Bool → Bytes → Connection W → Connection W × Bool
  send_buffer_fill is_text content k =
      (record k { posted = k.posted ++ node ∷ []; filled = k.filled ++ node ∷ [] }, true)
    where
      node : BufferNode
      node = record { is_text = is_text; buffer = content }

  -- The calls that a callback makes, one after the other.
  unfoldable pub perform : Program W → Connection W → Bool × Connection W
  unfolding eof send_buffer_fill Members.set_user_data Members.get_user_data
      Members.get_host_address Members.get_peer_address Members.recv_queue_size
      Members.recv_buffer_has_data Members.recv_buffer_data_is_text Members.recv_buffer_data
      Members.recv_buffer_size Members.recv_buffer_drop Members.send_queue_size
  perform (Program.answer b world) k = (b, record k { world = world })
  perform Program.assertion_failed k = (false, record k { aborted = true })
  perform (Program.set_user_data user_data p) k =
      perform p (record k { session = Members.set_user_data user_data k.session })
  perform (Program.get_user_data p) k = perform (p (Members.get_user_data k.session)) k
  perform (Program.get_host_address p) k =
      let (ip, port) = Members.get_host_address k.session in perform (p ip port) k
  perform (Program.get_peer_address p) k =
      let (ip, port) = Members.get_peer_address k.session in perform (p ip port) k
  perform (Program.recv_queue_size p) k = perform (p (Members.recv_queue_size k.session)) k
  perform (Program.recv_buffer_has_data p) k =
      perform (p (Members.recv_buffer_has_data k.session)) k
  perform (Program.recv_buffer_data_is_text p) k =
      perform (p (Members.recv_buffer_data_is_text k.session)) k
  perform (Program.recv_buffer_data p) k = perform (p (Members.recv_buffer_data k.session)) k
  perform (Program.recv_buffer_size p) k = perform (p (Members.recv_buffer_size k.session)) k
  perform (Program.recv_buffer_drop p) k =
      let (s, dropped) = Members.recv_buffer_drop k.session in
      perform (p dropped) (record k { session = s })
  perform (Program.send_queue_size p) k = perform (p (Members.send_queue_size k.session)) k
  perform (Program.send_buffer_fill is_text content p) k =
      let (k', filled) = send_buffer_fill is_text content k in perform (p filled) k'
  perform (Program.close p) k = perform p (eof k)

  -- A callback: it is recorded, and then it runs.
  unfoldable pub call : Callback → Program W → Connection W → Bool × Connection W
  call callback p k = perform p (record k { callbacks = callback ∷ k.callbacks })

  -- WebsocketSessionBase::recv. A stream allows one async_read at a time.
  unfoldable pub recv : Connection W → Connection W
  recv k = record k {
    session = record k.session { recv_queue = k.session.recv_queue ++ placeholder ∷ [] };
    reading = true;
    recv_fault = k.recv_fault || k.reading;
  }
    where
      placeholder : BufferNode
      placeholder = record { is_text = true; buffer = [] }

  -- WebsocketSessionBase::accept; run(req) only calls it.
  unfoldable pub accept : Connection W → Connection W
  accept k = record k { accepting = true }

  unfoldable pub start_write : Connection W → Option BufferNode → List BufferNode → Connection W
  start_write k outstanding [] = record k { send_fault = true }
  start_write k none (node ∷ _) = record k { writing = some node }
  start_write k (some _) (node ∷ _) = record k { send_fault = true }

  -- WebsocketSessionBase::send. A stream allows one async_write at a time.
  unfoldable pub send : Connection W → Connection W
  unfolding start_write
  send k = start_write k k.writing k.session.send_queue

  unfoldable pub enqueue : BufferNode → Connection W → Connection W
  enqueue node k = record k {
    session = record k.session {
      send_queue = k.session.send_queue ++ node ∷ [];
      send_queue_size = increment k.session.send_queue_size;
    };
  }

  -- WebsocketSessionBase::on_post
  unfoldable pub on_post : BufferNode → Connection W → Connection W
  unfolding send enqueue
  on_post node k =
      let k' = enqueue node k in if length k'.session.send_queue == 1 then send k' else k'

  -- `if (!callback) { close(); return; } recv();`
  unfoldable pub then_recv : Bool × Connection W → Connection W
  unfolding recv eof
  then_recv (ok, k) = if ok then recv k else eof k

  unfoldable pub send_next : List BufferNode → Connection W → Connection W
  unfolding send
  send_next [] k = k
  send_next (_ ∷ _) k = send k

  -- `if (!callback) { close(); return; } if (!m_send_queue.empty()) { send(); }`
  unfoldable pub then_send : Bool × Connection W → Connection W
  unfolding send_next eof
  then_send (ok, k) = if ok then send_next k.session.send_queue k else eof k

  -- `m_buffer.consume(bytes_transferred)` on the front node: the rest stays, and no write is started.
  unfoldable pub partly_sent : ℕ → Connection W → BufferNode → List BufferNode → Connection W
  partly_sent bytes k node rest = record k {
    session = record k.session { send_queue = node' ∷ rest };
  }
    where
      node' : BufferNode
      node' = record node { buffer = drop bytes node.buffer }

  -- `m_recv_queue.back().m_text = got_text; ++m_recv_queue_size`
  abbrev pub count_received : Bool → Connection W → Connection W
  count_received got_text k = record k {
    session = record k.session {
      recv_queue = set_last (mark_text got_text) k.session.recv_queue;
      recv_queue_size = increment k.session.recv_queue_size;
    };
  }

  -- `m_send_queue.pop_front(); --m_send_queue_size`, with `rest` behind the front
  abbrev pub pop_sent : Connection W → List BufferNode → Connection W
  pop_sent k rest = record k {
    session = record k.session {
      send_queue = rest;
      send_queue_size = decrement k.session.send_queue_size;
    };
  }

  -- `m_has_close = true`
  abbrev pub mark_closed : Connection W → Connection W
  mark_closed k = record k { session = record k.session { has_close = true } }

module _ {W : Type 0} (sv : Service W) where
  -- The on_error callback of a handler.
  unfoldable pub report : Stage → ErrorCode → Connection W → Connection W
  unfolding call
  report stage ec k = (call (errored stage ec) (sv.on_error k.world stage ec) k).1

  -- WebsocketSessionBase::on_close
  unfoldable pub on_close : ErrorCode → Connection W → Connection W
  unfolding call
  on_close ec k =
      if k.session.has_close then k else (call closed (sv.on_close k.world) (mark_closed k)).1

  -- WebsocketSessionBase::run(identity), of a connection that this program opened
  unfoldable pub run : ℕ → Connection W → Connection W
  unfolding call then_recv
  run identity k = then_recv (call (connected identity) (sv.on_connect k.world identity) k)

  -- WebsocketSessionBase::on_accept
  unfoldable pub on_accept : ErrorCode → Connection W → Connection W
  unfolding call then_recv report
  on_accept ec k =
      if failed ec
      then (if is_truncated ec then k else report Stage.accept ec k)
      else then_recv (call (accepted port) (sv.on_accept k.world port) k)
    where
      port : ℕ
      port = k.session.address.host_port

  unfoldable pub message_received : Bool → Connection W → Connection W
  unfolding call then_recv
  message_received got_text k =
      then_recv (call received (sv.on_recv k.world) (count_received got_text k))

  unfoldable pub received_into : Bool → Connection W → List BufferNode → Connection W
  unfolding message_received
  received_into got_text k [] = record k { recv_fault = true }
  received_into got_text k (_ ∷ _) = message_received got_text k

  unfoldable pub recv_failed : ErrorCode → Connection W → Connection W
  unfolding report on_close
  recv_failed ec k =
      on_close ec (if is_truncated ec || is_closed ec then k else report Stage.recv ec k)

  -- WebsocketSessionBase::on_recv; `got_text` is what the stream says of the message.
  unfoldable pub on_recv : ErrorCode → Bool → Connection W → Connection W
  unfolding recv_failed received_into
  on_recv ec got_text k =
      if failed ec then recv_failed ec k else received_into got_text k k.session.recv_queue

  unfoldable pub send_failed : ErrorCode → Connection W → Connection W
  unfolding report on_close
  send_failed ec k = on_close ec (if is_truncated ec then k else report Stage.send ec k)

  unfoldable pub node_sent : Connection W → List BufferNode → Connection W
  unfolding call then_send
  node_sent k rest = then_send (call sent (sv.on_send k.world) (pop_sent k rest))

  unfoldable pub sent_from : ℕ → Connection W → List BufferNode → Connection W
  unfolding node_sent partly_sent
  sent_from bytes k [] = record k { send_fault = true }
  sent_from bytes k (node ∷ rest) =
      if ltb bytes (length node.buffer) then partly_sent bytes k node rest else node_sent k rest

  -- WebsocketSessionBase::on_send
  unfoldable pub on_send : ErrorCode → ℕ → Connection W → Connection W
  unfolding send_failed sent_from
  on_send ec bytes k =
      if failed ec then send_failed ec k else sent_from bytes k k.session.send_queue
