-- ===== src/Websocket/Channel/Growth.antt =====
-- In a round of the event loop (inc/websocket_session_base.hpp), messages are only added to those given to
-- send_buffer_fill and to those written.
use boost_web.Common.{
  ℕ, ◌≡◌, refl, sym, ap, ◌∙◌, Bool, true, false, List, [], ◌∷◌, ◌++◌, Option, none, some,
  append-nil, append_assoc, if_cases, if◌then◌else◌, ◌||◌, length, ltb, ◌==◌,
}
use boost_web.Errors.{ErrorCode, success, failed, is_truncated, is_closed}
use boost_web.Websocket.Session.{BufferNode}
use boost_web.Websocket.Service.{Program, Service, Stage, Callback, received, sent, errored}
use boost_web.Websocket.Connection.{
  Connection, call, enqueue, send, start_write, report, then_recv, recv, eof, on_accept,
  message_received, received_into, recv_failed, on_recv, send_failed, send_next, then_send,
  node_sent, sent_from, on_send, on_close, on_post, send_buffer_fill, count_received, pop_sent,
  partly_sent, mark_closed,
}
use boost_web.Websocket.Frame.{perform-Frame}
use boost_web.Websocket.Events.{
  Step, accepted, read, read_failed, wrote, write_failed, closed, posted, filled_outside, end_read,
  deliver, end_write,
}

module _ {W : Type 0} where
  abbrev pub Grows : Connection W → Connection W → Type 0
  Grows k k' = record {
    extra : List BufferNode;
    moved : List BufferNode;
    filled : k'.filled ≡ k.filled ++ extra;
    written : k'.written ≡ k.written ++ moved;
  }

  -- Neither of them has changed.
  same-Grows : (k k' : Connection W) → k'.filled ≡ k.filled → k'.written ≡ k.written → Grows k k'
  same-Grows k k' e e' = record {
    extra = [];
    moved = [];
    filled = e ∙ sym (append-nil k.filled);
    written = e' ∙ sym (append-nil k.written);
  }

  Grows-trans : (k k' k'' : Connection W) → Grows k k' → Grows k' k'' → Grows k k''
  Grows-trans k k' k'' g h = record {
    extra = g.extra ++ h.extra;
    moved = g.moved ++ h.moved;
    filled = h.filled ∙ ap (λ ns. ns ++ h.extra) g.filled ∙ append_assoc k.filled g.extra h.extra;
    written =
        h.written ∙ ap (λ ns. ns ++ h.moved) g.written ∙ append_assoc k.written g.moved h.moved;
  }

  call-Grows : (c : Callback) (p : Program W) (k : Connection W) → Grows k (call c p k).1
  unfolding call
  call-Grows c p k =
      let f = perform-Frame p (record k { callbacks = c ∷ k.callbacks }) in
      record {
        extra = f.extra;
        moved = [];
        filled = f.filled;
        written = f.written ∙ sym (append-nil k.written);
      }

  then_recv-Grows :
      (k : Connection W) (r : Bool × Connection W) → Grows k r.1 → Grows k (then_recv r)
  unfolding then_recv recv eof
  then_recv-Grows k (true, k') g = g
  then_recv-Grows k (false, k') g = g

  start_write-Grows :
      (k k' : Connection W) (w : Option BufferNode) (q : List BufferNode)
      → Grows k k'
      → Grows k (start_write k' w q)
  unfolding start_write
  start_write-Grows k k' w [] g = g
  start_write-Grows k k' none (node ∷ q) g = g
  start_write-Grows k k' (some n) (node ∷ q) g = g

  send_next-Grows :
      (k k' : Connection W) (q : List BufferNode) → Grows k k' → Grows k (send_next q k')
  unfolding send_next send
  send_next-Grows k k' [] g = g
  send_next-Grows k k' (node ∷ q) g = start_write-Grows k k' k'.writing k'.session.send_queue g

  then_send-Grows :
      (k : Connection W) (r : Bool × Connection W) → Grows k r.1 → Grows k (then_send r)
  unfolding then_send eof
  then_send-Grows k (true, k') g = send_next-Grows k k' k'.session.send_queue g
  then_send-Grows k (false, k') g = g

  on_post-Grows : (node : BufferNode) (k k' : Connection W) → Grows k k' → Grows k (on_post node k')
  unfolding on_post send enqueue
  on_post-Grows node k k' g =
      let k₁ = enqueue node k' in
      if_cases (Grows k) (length k₁.session.send_queue == 1) (send k₁) k₁
        (λ _. start_write-Grows k k₁ k₁.writing k₁.session.send_queue g) (λ _. g)

module _ {W : Type 0} (sv : Service W) where
  report-Grows :
      (stage : Stage) (ec : ErrorCode) (k : Connection W) → Grows k (report sv stage ec k)
  unfolding report
  report-Grows stage ec k = call-Grows (errored stage ec) (sv.on_error k.world stage ec) k

  on_close-Grows : (ec : ErrorCode) (k k' : Connection W) → Grows k k' → Grows k (on_close sv ec k')
  unfolding on_close
  on_close-Grows ec k k' g =
      if_cases (Grows k) k'.session.has_close k'
        (call Callback.closed (sv.on_close k'.world) (mark_closed k')).1 (λ _. g)
        (λ _.
          Grows-trans k k' (call Callback.closed (sv.on_close k'.world) (mark_closed k')).1 g
            (call-Grows Callback.closed (sv.on_close k'.world) (mark_closed k')))

  on_accept-Grows : (ec : ErrorCode) (k : Connection W) → Grows k (on_accept sv ec k)
  unfolding on_accept
  on_accept-Grows ec k =
      let port = k.session.address.host_port in
      let heard = call (Callback.accepted port) (sv.on_accept k.world port) k in
      let reported = report sv Stage.accept ec k in
      if_cases (Grows k) (failed ec) (if is_truncated ec then k else reported) (then_recv heard)
        (λ _.
          if_cases (Grows k) (is_truncated ec) k reported (λ _. same-Grows k k refl refl)
            (λ _. report-Grows Stage.accept ec k))
        (λ _.
          then_recv-Grows k heard
            (call-Grows (Callback.accepted port) (sv.on_accept k.world port) k))

  recv_failed-Grows : (ec : ErrorCode) (k : Connection W) → Grows k (recv_failed sv ec k)
  unfolding recv_failed
  recv_failed-Grows ec k =
      let silent = is_truncated ec || is_closed ec in
      let reported = report sv Stage.recv ec k in
      on_close-Grows ec k (if silent then k else reported) (
        if_cases (Grows k) silent k reported (λ _. same-Grows k k refl refl)
          (λ _. report-Grows Stage.recv ec k))

  received_into-Grows :
      (got_text : Bool) (k : Connection W) (q : List BufferNode)
      → Grows k (received_into sv got_text k q)
  unfolding received_into message_received
  received_into-Grows got_text k [] = same-Grows k (record k { recv_fault = true }) refl refl
  received_into-Grows got_text k (_ ∷ _) =
      let k' = count_received got_text k in
      then_recv-Grows k (call received (sv.on_recv k.world) k')
        (call-Grows received (sv.on_recv k.world) k')

  on_recv-Grows :
      (ec : ErrorCode) (got_text : Bool) (k : Connection W) → Grows k (on_recv sv ec got_text k)
  unfolding on_recv
  on_recv-Grows ec got_text k =
      if_cases (Grows k) (failed ec) (recv_failed sv ec k)
        (received_into sv got_text k k.session.recv_queue) (λ _. recv_failed-Grows ec k)
        (λ _. received_into-Grows got_text k k.session.recv_queue)

  send_failed-Grows : (ec : ErrorCode) (k : Connection W) → Grows k (send_failed sv ec k)
  unfolding send_failed
  send_failed-Grows ec k =
      let reported = report sv Stage.send ec k in
      on_close-Grows ec k (if is_truncated ec then k else reported) (
        if_cases (Grows k) (is_truncated ec) k reported (λ _. same-Grows k k refl refl)
          (λ _. report-Grows Stage.send ec k))

  node_sent-Grows : (k : Connection W) (rest : List BufferNode) → Grows k (node_sent sv k rest)
  unfolding node_sent
  node_sent-Grows k rest =
      let k' = pop_sent k rest in
      then_send-Grows k (call sent (sv.on_send k.world) k')
        (call-Grows sent (sv.on_send k.world) k')

  sent_from-Grows :
      (bytes : ℕ) (k : Connection W) (q : List BufferNode) → Grows k (sent_from sv bytes k q)
  unfolding sent_from partly_sent
  sent_from-Grows bytes k [] = same-Grows k (record k { send_fault = true }) refl refl
  sent_from-Grows bytes k (node ∷ rest) =
      if_cases (Grows k) (ltb bytes (length node.buffer)) (partly_sent bytes k node rest)
        (node_sent sv k rest) (λ _. same-Grows k (partly_sent bytes k node rest) refl refl)
        (λ _. node_sent-Grows k rest)

  on_send-Grows : (ec : ErrorCode) (bytes : ℕ) (k : Connection W) → Grows k (on_send sv ec bytes k)
  unfolding on_send
  on_send-Grows ec bytes k =
      if_cases (Grows k) (failed ec) (send_failed sv ec k)
        (sent_from sv bytes k k.session.send_queue) (λ _. send_failed-Grows ec k)
        (λ _. sent_from-Grows bytes k k.session.send_queue)

  pub Step-Grows : (k k' : Connection W) → Step sv k k' → Grows k k'
  unfolding send_buffer_fill
  Step-Grows k k' (accepted ec e) = on_accept-Grows ec (record k { accepting = false })
  Step-Grows k k' (read got_text content e) =
      on_recv-Grows success got_text (deliver got_text content k)
  Step-Grows k k' (read_failed ec got_text content bad e) =
      on_recv-Grows ec got_text (end_read content k)
  Step-Grows k k' (wrote node bytes e whole) =
      let k₁ = end_write node k in
      Grows-trans k k₁ k'
        (record {
          extra = [];
          moved = node ∷ [];
          filled = sym (append-nil k.filled);
          written = refl;
        })
        (on_send-Grows success bytes k₁)
  Step-Grows k k' (write_failed ec node bytes bad e) =
      on_send-Grows ec bytes (record k { writing = none })
  Step-Grows k k' (closed ec n e) =
      let k₁ = record k { closing = n } in on_close-Grows ec k k₁ (same-Grows k k₁ refl refl)
  Step-Grows k k' (posted node rest e) =
      let k₁ = record k { posted = rest } in on_post-Grows node k k₁ (same-Grows k k₁ refl refl)
  Step-Grows k k' (filled_outside is_text content) = record {
    extra = record { is_text = is_text; buffer = content } ∷ [];
    moved = [];
    filled = refl;
    written = sym (append-nil k.written);
  }
