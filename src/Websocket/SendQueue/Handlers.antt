-- ===== src/Websocket/SendQueue/Handlers.antt =====
-- Every handler of inc/websocket_session_base.hpp, and so every round of the event loop, keeps the
-- invariant of the send side.
use boost_web.Common.{
  ℕ, ◌≤◌, ◌≡◌, refl, ◌∙◌, Bool, true, false, List, [], ◌∷◌, Option, none, some, length,
  append_assoc, arith, if_cases,
}
use boost_web.Errors.{ErrorCode, success, stream_truncated, websocket_closed, failed}
use boost_web.Websocket.Session.{BufferNode, Session}
use boost_web.Websocket.Session
use boost_web.Websocket.Service.{Service, Stage, Callback, received, sent, connected, errored}
use boost_web.Websocket.Connection.{
  Connection, start, accept, call, report, run, on_accept, message_received, received_into,
  recv_failed, on_recv, send_failed, node_sent, sent_from, on_send, on_close, count_received,
  pop_sent, mark_closed,
}
use boost_web.Websocket.Frame.{perform-Frame}
use boost_web.Websocket.Events.{
  Step, accepted, read, read_failed, wrote, write_failed, closed, posted, filled_outside, Reachable,
  server, client, next, end_read, deliver, end_write, end_read, deliver,
}
use boost_web.Websocket.SendQueue.{
  SendInv, call-SendInv, call_closed-SendInv, on_post-SendInv, send_buffer_fill-SendInv,
  called_then_recv-SendInv, then_send-SendInv, on_wire, whole_write,
}

module _ {W : Type 0} (sv : Service W) where
  report-SendInv :
      (stage : Stage) (ec : ErrorCode) (k : Connection W)
      → SendInv k
      → SendInv (report sv stage ec k)
  unfolding report
  report-SendInv stage ec k v =
      call-SendInv (errored stage ec) (sv.on_error k.world stage ec) k refl v

  on_close-SendInv : (ec : ErrorCode) (k : Connection W) → SendInv k → SendInv (on_close sv ec k)
  unfolding on_close
  on_close-SendInv ec k v =
      if_cases SendInv k.session.has_close k
        (call Callback.closed (sv.on_close k.world) (mark_closed k)).1 (λ _. v)
        (λ first. call_closed-SendInv (sv.on_close k.world) k first v)

  run-SendInv : (identity : ℕ) (k : Connection W) → SendInv k → SendInv (run sv identity k)
  unfolding run
  run-SendInv identity k v =
      called_then_recv-SendInv (connected identity) (sv.on_connect k.world identity) k refl v

  on_accept-SendInv : (ec : ErrorCode) (k : Connection W) → SendInv k → SendInv (on_accept sv ec k)
  unfolding on_accept
  on_accept-SendInv success k v =
      let port = k.session.address.host_port in
      called_then_recv-SendInv (Callback.accepted port) (sv.on_accept k.world port) k refl v
  on_accept-SendInv stream_truncated k v = v
  on_accept-SendInv ec k v = report-SendInv Stage.accept ec k v

  recv_failed-SendInv :
      (ec : ErrorCode) (k : Connection W) → SendInv k → SendInv (recv_failed sv ec k)
  unfolding recv_failed
  recv_failed-SendInv stream_truncated k v = on_close-SendInv stream_truncated k v
  recv_failed-SendInv websocket_closed k v = on_close-SendInv websocket_closed k v
  recv_failed-SendInv ec k v =
      on_close-SendInv ec (report sv Stage.recv ec k) (report-SendInv Stage.recv ec k v)

  received_into-SendInv :
      (got_text : Bool) (k : Connection W) (q : List BufferNode)
      → SendInv k
      → SendInv (received_into sv got_text k q)
  unfolding received_into message_received
  received_into-SendInv got_text k [] v = v
  received_into-SendInv got_text k (_ ∷ _) v =
      called_then_recv-SendInv received (sv.on_recv k.world) (count_received got_text k) refl v

  on_recv-SendInv :
      (ec : ErrorCode) (got_text : Bool) (k : Connection W)
      → SendInv k
      → SendInv (on_recv sv ec got_text k)
  unfolding on_recv
  on_recv-SendInv success got_text k v = received_into-SendInv got_text k k.session.recv_queue v
  on_recv-SendInv ec got_text k v = recv_failed-SendInv ec k v

  send_failed-SendInv :
      (ec : ErrorCode) (k : Connection W) → SendInv k → SendInv (send_failed sv ec k)
  unfolding send_failed
  send_failed-SendInv stream_truncated k v = on_close-SendInv stream_truncated k v
  send_failed-SendInv ec k v =
      on_close-SendInv ec (report sv Stage.send ec k) (report-SendInv Stage.send ec k v)

  node_sent-SendInv :
      (k : Connection W) (rest : List BufferNode)
      → k.writing ≡ none
      → SendInv (pop_sent k rest)
      → SendInv (node_sent sv k rest)
  unfolding node_sent call
  node_sent-SendInv k rest e v =
      let k' = pop_sent k rest in
      let p = sv.on_send k.world in
      let f = perform-Frame p (record k' { callbacks = sent ∷ k.callbacks }) in
      then_send-SendInv (call sent p k') (f.writing ∙ e) (call-SendInv sent p k' refl v)

  sent_from-SendInv :
      (k : Connection W) (w : Option BufferNode) (q : List BufferNode) (node : BufferNode)
      (bytes : ℕ)
      → w ≡ some node
      → length node.buffer ≤ bytes
      → SendInv (on_wire k w q)
      → SendInv (sent_from sv bytes (end_write node (on_wire k w q)) q)
  unfolding sent_from
  sent_from-SendInv k none q node bytes e whole v = cc
  sent_from-SendInv k (some n) [] node bytes e whole v = absurd v.in_flight
  sent_from-SendInv k (some n) (front ∷ rest) node bytes e whole v =
      rw (whole_write node n front bytes e v.in_flight whole, sent_from)
        (node_sent-SendInv (end_write node (on_wire k (some n) (front ∷ rest))) rest refl popped)
    where
      same : node ≡ front
      same = ground (arith, v.in_flight)

      popped : SendInv (pop_sent (end_write node (on_wire k (some n) (front ∷ rest))) rest)
      popped = record {
        counted = omega (arith, v.counted);
        in_flight = tt;
        ordered = simp (v.ordered, same, append_assoc);
        sound = v.sound;
        closed_once = v.closed_once;
      }

  on_send-SendInv :
      (k : Connection W) (node : BufferNode) (bytes : ℕ)
      → k.writing ≡ some node
      → length node.buffer ≤ bytes
      → SendInv k
      → SendInv (on_send sv success bytes (end_write node k))
  unfolding on_send
  on_send-SendInv k node bytes = sent_from-SendInv k k.writing k.session.send_queue node bytes

  on_send_failed-SendInv :
      (ec : ErrorCode) (bytes : ℕ) (k : Connection W)
      → failed ec ≡ true
      → SendInv k
      → SendInv (on_send sv ec bytes k)
  unfolding on_send
  on_send_failed-SendInv success bytes k bad v = cc
  on_send_failed-SendInv ec bytes k bad v = send_failed-SendInv ec k v

  pub Step-SendInv : (k k' : Connection W) → Step sv k k' → SendInv k → SendInv k'
  Step-SendInv k k' (accepted ec e) v = on_accept-SendInv ec (record k { accepting = false }) v
  Step-SendInv k k' (read got_text content e) v =
      on_recv-SendInv success got_text (deliver got_text content k) v
  Step-SendInv k k' (read_failed ec got_text content bad e) v =
      on_recv-SendInv ec got_text (end_read content k) v
  Step-SendInv k k' (wrote node bytes e whole) v = on_send-SendInv k node bytes e whole v
  Step-SendInv k k' (write_failed ec node bytes bad e) v =
      on_send_failed-SendInv ec bytes (record k { writing = none }) bad
        (record {
          counted = v.counted;
          in_flight = tt;
          ordered = v.ordered;
          sound = v.sound;
          closed_once = v.closed_once;
        })
  Step-SendInv k k' (closed ec n e) v = on_close-SendInv ec (record k { closing = n }) v
  Step-SendInv k k' (posted node rest e) v = on_post-SendInv node rest k e v
  Step-SendInv k k' (filled_outside is_text content) v =
      send_buffer_fill-SendInv is_text content k v

  -- Of every reachable connection, whatever its service does: the send queue's size is the number of its
  -- nodes (as a std::size_t), what is being written is its front, the messages written, queued and
  -- posted are in this order exactly those given to send_buffer_fill, neither send nor on_send has
  -- found the queue empty or overlapped another write, and on_close has been called once if the
  -- connection is marked as closed, and never if not.
  pub Reachable-SendInv : (k : Connection W) → Reachable sv k → SendInv k
  unfolding accept
  Reachable-SendInv k (server world address) = record {
    counted = omega arith;
    in_flight = tt;
    ordered = refl;
    sound = refl;
    closed_once = refl;
  }
  Reachable-SendInv k (client identity world address) =
      run-SendInv identity (start world (Session.new address)) (record {
        counted = omega arith;
        in_flight = tt;
        ordered = refl;
        sound = refl;
        closed_once = refl;
      })
  Reachable-SendInv k (next {k = k₀} r st) = Step-SendInv k₀ k st (Reachable-SendInv k₀ r)
