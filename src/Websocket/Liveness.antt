-- ===== src/Websocket/Liveness.antt =====
-- No message of inc/websocket_session_base.hpp is forgotten in the send queue: while the connection
-- is open and not being closed, a queue with a message in it has a write outstanding.
use boost_web.Common.{
  ℕ, ◌≤◌, ◌≡◌, ◌∙◌, Bool, true, false, List, [], ◌∷◌, Option, none, some, length, arith, if_cases,
  ◌⊎◌, inl, ◌<◌, inr, ap, subst,
}
use boost_web.Errors.{ErrorCode, success, stream_truncated, websocket_closed, failed}
use boost_web.Websocket.Session.{BufferNode, Session}
use boost_web.Websocket.Session
use boost_web.Websocket.Service.{
  Service, Stage, Callback, received, sent, connected, errored, Program,
}
use boost_web.Websocket.Connection.{
  Connection, start, accept, call, report, run, on_accept, message_received, received_into,
  recv_failed, on_recv, send_failed, node_sent, sent_from, on_send, on_close, count_received,
  pop_sent, mark_closed, on_post, then_send, send_next, then_recv, perform, send_buffer_fill,
}
use boost_web.Websocket.Frame.{perform-Frame, Frame}
use boost_web.Websocket.Events.{
  Step, accepted, read, read_failed, wrote, write_failed, closed, posted, filled_outside, Reachable,
  server, client, next, end_read, deliver, end_write, end_read, deliver,
}
use boost_web.Websocket.SendQueue.{SendInv, on_wire, two_left, InFlight, whole_write}
use boost_web.Websocket.SendQueue.Handlers.{Reachable-SendInv}

abbrev pub Idle : Option BufferNode → List BufferNode → Type 0
Idle none [] = Unit
Idle none (_ ∷ _) = ⊥
Idle (some _) queue = Unit

module _ {W : Type 0} where
  -- Closed, closing, or with a write outstanding where there is something to write.
  abbrev pub Awake : Connection W → Type 0
  Awake k = (k.session.has_close ≡ true) ⊎ ((0 < k.closing) ⊎ Idle k.writing k.session.send_queue)

  Frame-Awake : (k k' : Connection W) → Frame k k' → Awake k → Awake k'
  Frame-Awake k k' f (inl h) = inl (f.has_close ∙ h)
  Frame-Awake k k' f (inr (inl h)) = inr (inl (omega (arith, f.closing)))
  Frame-Awake k k' f (inr (inr h)) = inr (inr (rw (f.writing, f.send_queue) h))

  call-Awake : (c : Callback) (p : Program W) (k : Connection W) → Awake k → Awake (call c p k).1
  unfolding call
  call-Awake c p k h =
      let k₁ = record k { callbacks = c ∷ k.callbacks } in
      Frame-Awake k₁ (perform p k₁).1 (perform-Frame p k₁) h

  then_recv-Awake : (r : Bool × Connection W) → Awake r.1 → Awake (then_recv r)
  unfolding then_recv
  then_recv-Awake (true, k) h = h
  then_recv-Awake (false, k) h = inr (inl (omega arith))

  called_then_recv-Awake :
      (c : Callback) (p : Program W) (k : Connection W) → Awake k → Awake (then_recv (call c p k))
  called_then_recv-Awake c p k h = then_recv-Awake (call c p k) (call-Awake c p k h)

  send_next-Idle :
      (k : Connection W) (w : Option BufferNode) (q : List BufferNode)
      → Idle (send_next q (on_wire k w q)).writing (send_next q (on_wire k w q)).session.send_queue
  unfolding send_next
  send_next-Idle k none [] = tt
  send_next-Idle k none (_ ∷ _) = tt
  send_next-Idle k (some _) [] = tt
  send_next-Idle k (some _) (_ ∷ _) = tt

  then_send-Awake : (r : Bool × Connection W) → Awake (then_send r)
  unfolding then_send
  then_send-Awake (true, k) = inr (inr (send_next-Idle k k.writing k.session.send_queue))
  then_send-Awake (false, k) = inr (inl (omega arith))

  on_post-Awake_of :
      (node : BufferNode) (k : Connection W) (w : Option BufferNode) (q : List BufferNode)
      → Awake (on_wire k w q)
      → Awake (on_post node (on_wire k w q))
  unfolding on_post
  on_post-Awake_of node k none [] h = inr (inr tt)
  on_post-Awake_of node k none (x ∷ q) h = rw (two_left q node, on_post) h
  on_post-Awake_of node k (some n) [] h = inr (inr tt)
  on_post-Awake_of node k (some n) (x ∷ q) h = rw (two_left q node, on_post) (inr (inr tt))

  on_post-Awake : (node : BufferNode) (k : Connection W) → Awake k → Awake (on_post node k)
  on_post-Awake node k h = on_post-Awake_of node k k.writing k.session.send_queue h

module _ {W : Type 0} (sv : Service W) where
  report-Awake :
      (stage : Stage) (ec : ErrorCode) (k : Connection W) → Awake k → Awake (report sv stage ec k)
  unfolding report
  report-Awake stage ec k h = call-Awake (errored stage ec) (sv.on_error k.world stage ec) k h

  -- on_close leaves the connection marked as closed, whatever came before.
  on_close-has_close :
      (ec : ErrorCode) (k : Connection W) → (on_close sv ec k).session.has_close ≡ true
  unfolding on_close call
  on_close-has_close ec k =
      let k₁ = record (mark_closed k) { callbacks = Callback.closed ∷ k.callbacks } in
      if_cases (λ (k' : Connection W). k'.session.has_close ≡ true) k.session.has_close k
        (perform (sv.on_close k.world) k₁).1 (λ yet. yet)
        (λ _. (perform-Frame (sv.on_close k.world) k₁).has_close)

  on_close-Awake : (ec : ErrorCode) (k : Connection W) → Awake (on_close sv ec k)
  on_close-Awake ec k = inl (on_close-has_close ec k)

  on_accept-Awake : (ec : ErrorCode) (k : Connection W) → Awake k → Awake (on_accept sv ec k)
  unfolding on_accept
  on_accept-Awake success k h =
      let port = k.session.address.host_port in
      called_then_recv-Awake (Callback.accepted port) (sv.on_accept k.world port) k h
  on_accept-Awake stream_truncated k h = h
  on_accept-Awake ec k h = report-Awake Stage.accept ec k h

  received_into-Awake :
      (got_text : Bool) (k : Connection W) (q : List BufferNode)
      → Awake k
      → Awake (received_into sv got_text k q)
  unfolding received_into message_received
  received_into-Awake got_text k [] h = h
  received_into-Awake got_text k (_ ∷ _) h =
      called_then_recv-Awake received (sv.on_recv k.world) (count_received got_text k) h

  on_recv-Awake :
      (ec : ErrorCode) (got_text : Bool) (k : Connection W)
      → Awake k
      → Awake (on_recv sv ec got_text k)
  unfolding on_recv recv_failed
  on_recv-Awake success got_text k h = received_into-Awake got_text k k.session.recv_queue h
  on_recv-Awake stream_truncated got_text k h = on_close-Awake stream_truncated k
  on_recv-Awake websocket_closed got_text k h = on_close-Awake websocket_closed k
  on_recv-Awake ec got_text k h = on_close-Awake ec (report sv Stage.recv ec k)

  sent_from-Awake :
      (k : Connection W) (w : Option BufferNode) (q : List BufferNode) (node : BufferNode)
      (bytes : ℕ)
      → w ≡ some node
      → length node.buffer ≤ bytes
      → InFlight w q
      → Awake (sent_from sv bytes (end_write node (on_wire k w q)) q)
  unfolding sent_from node_sent
  sent_from-Awake k none q node bytes e whole v = cc
  sent_from-Awake k (some n) [] node bytes e whole v = absurd v
  sent_from-Awake k (some n) (front ∷ rest) node bytes e whole v =
      let k' = pop_sent (end_write node (on_wire k (some n) (front ∷ rest))) rest in
      rw (whole_write node n front bytes e v whole, sent_from)
        (then_send-Awake (call sent (sv.on_send k.world) k'))

  on_send-Awake :
      (k : Connection W) (node : BufferNode) (bytes : ℕ)
      → k.writing ≡ some node
      → length node.buffer ≤ bytes
      → SendInv k
      → Awake (on_send sv success bytes (end_write node k))
  unfolding on_send
  on_send-Awake k node bytes e whole v =
      sent_from-Awake k k.writing k.session.send_queue node bytes e whole v.in_flight

  on_send_failed-Awake :
      (ec : ErrorCode) (bytes : ℕ) (k : Connection W)
      → failed ec ≡ true
      → Awake (on_send sv ec bytes k)
  unfolding on_send send_failed
  on_send_failed-Awake success bytes k bad = cc
  on_send_failed-Awake stream_truncated bytes k bad = on_close-Awake stream_truncated k
  on_send_failed-Awake ec bytes k bad = on_close-Awake ec (report sv Stage.send ec k)

  Step-Awake : (k k' : Connection W) → Step sv k k' → SendInv k → Awake k → Awake k'
  unfolding send_buffer_fill
  Step-Awake k k' (accepted ec e) v h = on_accept-Awake ec (record k { accepting = false }) h
  Step-Awake k k' (read got_text content e) v h =
      on_recv-Awake success got_text (deliver got_text content k) h
  Step-Awake k k' (read_failed ec got_text content bad e) v h =
      on_recv-Awake ec got_text (end_read content k) h
  Step-Awake k k' (wrote node bytes e whole) v h = on_send-Awake k node bytes e whole v
  Step-Awake k k' (write_failed ec node bytes bad e) v h =
      on_send_failed-Awake ec bytes (record k { writing = none }) bad
  Step-Awake k k' (closed ec n e) v h = on_close-Awake ec (record k { closing = n })
  Step-Awake k k' (posted node rest e) v h = on_post-Awake node (record k { posted = rest }) h
  Step-Awake k k' (filled_outside is_text content) v h = h

  Reachable-Awake : (k : Connection W) → Reachable sv k → Awake k
  unfolding accept run
  Reachable-Awake k (server world address) = inr (inr tt)
  Reachable-Awake k (client identity world address) =
      let k₁ = start world (Session.new address) in
      called_then_recv-Awake (connected identity) (sv.on_connect k₁.world identity) k₁
        (inr (inr tt))
  Reachable-Awake k (next {k = k₀} r st) =
      Step-Awake k₀ k st (Reachable-SendInv sv k₀ r) (Reachable-Awake k₀ r)

  must_be :
      (k : Connection W) (w : Option BufferNode) (node : BufferNode) (rest : List BufferNode)
      → InFlight w (node ∷ rest)
      → Idle w (node ∷ rest)
      → w ≡ some node
  must_be k none node rest f i = absurd i
  must_be k (some n) node rest f i = ap some f

  busy :
      (k : Connection W) (node : BufferNode) (rest : List BufferNode)
      → Awake k
      → SendInv k
      → k.session.has_close ≡ false
      → k.closing ≡ 0
      → k.session.send_queue ≡ node ∷ rest
      → k.writing ≡ some node
  busy k node rest (inl shut) v open_yet not_closing e = cc
  busy k node rest (inr (inl closes)) v open_yet not_closing e = absurd (omega arith)
  busy k node rest (inr (inr i)) v open_yet not_closing e =
      must_be k k.writing node rest (subst (InFlight k.writing) e v.in_flight)
        (subst (Idle k.writing) e i)

  -- While a reachable connection is not marked as closed and no async_close is outstanding, a send queue that is not empty
  -- has its front node in an outstanding async_write.
  pub never_stalls :
      (k : Connection W) (node : BufferNode) (rest : List BufferNode)
      → Reachable sv k
      → k.session.has_close ≡ false
      → k.closing ≡ 0
      → k.session.send_queue ≡ node ∷ rest
      → k.writing ≡ some node
  never_stalls k node rest r = busy k node rest (Reachable-Awake k r) (Reachable-SendInv sv k r)
