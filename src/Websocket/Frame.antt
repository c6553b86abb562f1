-- ===== src/Websocket/Frame.antt =====
-- What the calls of a callback can change in a connection of inc/websocket_session_base.hpp, and what
-- they leave alone.
use boost_web.Common.{
  ◌≡◌, refl, true, List, [], ◌∷◌, ◌++◌, append-nil, append_assoc, sym, ◌∙◌, arith, ◌≤◌,
}
use boost_web.Websocket.Session.{BufferNode}
use boost_web.Websocket.Members.{drop_cases}
use boost_web.Websocket.Service.{Program}
use boost_web.Websocket.Connection.{Connection, perform, send_buffer_fill, eof}

module _ {W : Type 0} where
  abbrev pub Frame : Connection W → Connection W → Type 0
  Frame k k' = record {
    extra : List BufferNode;
    posted : k'.posted ≡ k.posted ++ extra;
    filled : k'.filled ≡ k.filled ++ extra;
    send_queue : k'.session.send_queue ≡ k.session.send_queue;
    send_queue_size : k'.session.send_queue_size ≡ k.session.send_queue_size;
    has_close : k'.session.has_close ≡ k.session.has_close;
    writing : k'.writing ≡ k.writing;
    reading : k'.reading ≡ k.reading;
    accepting : k'.accepting ≡ k.accepting;
    written : k'.written ≡ k.written;
    arrived : k'.arrived ≡ k.arrived;
    callbacks : k'.callbacks ≡ k.callbacks;
    recv_fault : k'.recv_fault ≡ k.recv_fault;
    send_fault : k'.send_fault ≡ k.send_fault;
    closing : k.closing ≤ k'.closing;
  }

  idle : (k : Connection W) → Frame k k
  idle k = record {
    extra = [];
    posted = sym (append-nil _);
    filled = sym (append-nil _);
    send_queue = refl;
    send_queue_size = refl;
    has_close = refl;
    writing = refl;
    reading = refl;
    accepting = refl;
    written = refl;
    arrived = refl;
    callbacks = refl;
    recv_fault = refl;
    send_fault = refl;
    closing = omega arith;
  }

  -- The frame of what follows a send_buffer_fill, seen from before it.
  refill :
      (k : Connection W) (node : BufferNode) (k' : Connection W)
      → Frame (record k { posted = k.posted ++ node ∷ []; filled = k.filled ++ node ∷ [] }) k'
      → Frame k k'
  refill k node k' f = record {
    extra = node ∷ f.extra;
    posted = f.posted ∙ append_assoc k.posted (node ∷ []) f.extra;
    filled = f.filled ∙ append_assoc k.filled (node ∷ []) f.extra;
    send_queue = f.send_queue;
    send_queue_size = f.send_queue_size;
    has_close = f.has_close;
    writing = f.writing;
    reading = f.reading;
    accepting = f.accepting;
    written = f.written;
    arrived = f.arrived;
    callbacks = f.callbacks;
    recv_fault = f.recv_fault;
    send_fault = f.send_fault;
    closing = f.closing;
  }

  -- The frame of what follows a close, seen from before it.
  reclose : (k k' : Connection W) → Frame (eof k) k' → Frame k k'
  unfolding eof
  reclose k k' f = record {
    extra = f.extra;
    posted = f.posted;
    filled = f.filled;
    send_queue = f.send_queue;
    send_queue_size = f.send_queue_size;
    has_close = f.has_close;
    writing = f.writing;
    reading = f.reading;
    accepting = f.accepting;
    written = f.written;
    arrived = f.arrived;
    callbacks = f.callbacks;
    recv_fault = f.recv_fault;
    send_fault = f.send_fault;
    closing = omega (arith, f.closing);
  }

  -- Whatever a callback calls, it adds to what is posted, and leaves the send queue, the operations
  -- and the record of callbacks alone.
  pub perform-Frame : (p : Program W) (k : Connection W) → Frame k (perform p k).1
  unfolding perform
  perform-Frame (Program.answer b world) k = idle k
  perform-Frame Program.assertion_failed k = idle k
  perform-Frame (Program.set_user_data user_data p) k = perform-Frame p _
  perform-Frame (Program.get_user_data p) k = perform-Frame (p _) k
  perform-Frame (Program.get_host_address p) k = perform-Frame (p _ _) k
  perform-Frame (Program.get_peer_address p) k = perform-Frame (p _ _) k
  perform-Frame (Program.recv_queue_size p) k = perform-Frame (p _) k
  perform-Frame (Program.recv_buffer_has_data p) k = perform-Frame (p _) k
  perform-Frame (Program.recv_buffer_data_is_text p) k = perform-Frame (p _) k
  perform-Frame (Program.recv_buffer_data p) k = perform-Frame (p _) k
  perform-Frame (Program.recv_buffer_size p) k = perform-Frame (p _) k
  perform-Frame (Program.recv_buffer_drop p) k =
      drop_cases (λ r. Frame k (perform (p r.1) (record k { session = r.0 })).1) k.session
        λ dropped queue size. perform-Frame (p dropped) _
  perform-Frame (Program.send_queue_size p) k = perform-Frame (p _) k
  perform-Frame (Program.send_buffer_fill is_text content p) k =
      let k₁ = (send_buffer_fill is_text content k).0 in
      refill k (record { is_text = is_text; buffer = content }) (perform (p true) k₁).1
        (perform-Frame (p true) k₁)
  perform-Frame (Program.close p) k = reclose k (perform p (eof k)).1 (perform-Frame p (eof k))
