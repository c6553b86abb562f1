-- ===== src/Websocket/RecvQueue/Steps.antt =====
-- Every round of the event loop of inc/websocket_session_base.hpp keeps the count of the receive
-- side, if the service drops messages in on_connect, on_accept and on_recv only.
use boost_web.Common.{
  ◌≤◌, ◌%◌, ◌+◌, ◌-◌, size_mod, not, sym, ◌∙◌, Bool-cases, ℕ, ◌≡◌, refl, ◌∙◌, Bool, true, false,
  List, [], ◌∷◌, none, length, arith, if_cases, ap, inl, Bytes, ◌⊎◌, inr, ltb, length-set_last,
}
use boost_web.Errors.{ErrorCode, success, stream_truncated, websocket_closed}
use boost_web.Websocket.Session.{BufferNode, Session}
use boost_web.Websocket.Session
use boost_web.Websocket.Service.{Service, Stage, Callback, received, sent, connected, errored}
use boost_web.Websocket.Connection.{
  Connection, start, accept, call, report, run, on_accept, message_received, received_into,
  recv_failed, on_recv, send_failed, node_sent, sent_from, on_send, on_close, count_received,
  pop_sent, mark_closed, partly_sent, send_buffer_fill, mark_text,
}
use boost_web.Websocket.Events.{
  Step, accepted, read, read_failed, wrote, write_failed, closed, posted, filled_outside, Reachable,
  server, client, next, fill_last, end_read, deliver, end_write, end_read, deliver,
}
use mathlib.Core.Bool.{true≢false}
use boost_web.Websocket.Members
use boost_web.Websocket.RecvQueue.{NoDrop, Counted}
use boost_web.Websocket.RecvQueue.Handlers.{
  RecvInv, At, At-RecvInv, At-closed-RecvInv, called_then_recv-RecvInv, quiet-At, quiet-RecvInv,
  on_post-RecvInv, then_send-RecvInv,
}

-- The service drops no message while a read may be outstanding.
abbrev pub Disciplined : {W : Type 0} → Service W → Type 0
Disciplined {W} sv = record {
  sends : (w : W) → NoDrop (sv.on_send w);
  errors : (w : W) (stage : Stage) (ec : ErrorCode) → NoDrop (sv.on_error w stage ec);
  closes : (w : W) → NoDrop (sv.on_close w);
}

module _ {W : Type 0} (sv : Service W) (d : Disciplined sv) where
  on_close-RecvInv : (ec : ErrorCode) (k : Connection W) → RecvInv k → RecvInv (on_close sv ec k)
  unfolding on_close
  on_close-RecvInv ec k v =
      if_cases RecvInv k.session.has_close k
        (call Callback.closed (sv.on_close k.world) (mark_closed k)).1 (λ _. v)
        λ first.
          quiet-RecvInv Callback.closed (sv.on_close k.world) (mark_closed k) (d.closes k.world)
            (record {
              reads = v.reads;
              rests = λ e. closes_too (v.rests e);
              accepts = v.accepts;
              sound = v.sound;
            })
    where
      closes_too :
          Counted 0 k ⊎ ((k.session.has_close ≡ true) × Counted 1 k)
          → Counted 0 k ⊎ ((true ≡ true) × Counted 1 k)
      closes_too (inl c) = inl c
      closes_too (inr (_, c)) = inr (refl, c)

  -- on_close after a read that failed.
  on_close_At-RecvInv : (ec : ErrorCode) (k : Connection W) → At 1 k → RecvInv (on_close sv ec k)
  unfolding on_close
  on_close_At-RecvInv ec k a =
      if_cases RecvInv k.session.has_close k
        (call Callback.closed (sv.on_close k.world) (mark_closed k)).1
        (λ shut. At-closed-RecvInv k shut a)
        λ first.
          quiet-RecvInv Callback.closed (sv.on_close k.world) (mark_closed k) (d.closes k.world)
            (At-closed-RecvInv (mark_closed k) refl a)

  report-At :
      (stage : Stage) (ec : ErrorCode) (k : Connection W) → At 1 k → At 1 (report sv stage ec k)
  unfolding report
  report-At stage ec k a =
      quiet-At 1 (errored stage ec) (sv.on_error k.world stage ec) k (d.errors k.world stage ec) a

  report-RecvInv :
      (stage : Stage) (ec : ErrorCode) (k : Connection W)
      → RecvInv k
      → RecvInv (report sv stage ec k)
  unfolding report
  report-RecvInv stage ec k v =
      quiet-RecvInv (errored stage ec) (sv.on_error k.world stage ec) k (d.errors k.world stage ec)
        v

  on_accept-RecvInv : (ec : ErrorCode) (k : Connection W) → At 0 k → RecvInv (on_accept sv ec k)
  unfolding on_accept
  on_accept-RecvInv success k a =
      let port = k.session.address.host_port in
      called_then_recv-RecvInv (Callback.accepted port) (sv.on_accept k.world port) k a
  on_accept-RecvInv stream_truncated k a = At-RecvInv k a
  on_accept-RecvInv ec k a = report-RecvInv Stage.accept ec k (At-RecvInv k a)

  received_into-RecvInv :
      (got_text : Bool) (k : Connection W) (q : List BufferNode)
      → k.session.recv_queue ≡ q
      → At 1 k
      → RecvInv (received_into sv got_text k q)
  unfolding received_into message_received
  received_into-RecvInv got_text k [] e a = absurd (omega (arith, ap length e, a.counted.1))
  received_into-RecvInv got_text k (_ ∷ _) e a =
      let (n, l, c) = a.counted in
      called_then_recv-RecvInv received (sv.on_recv k.world) (count_received got_text k) (record {
        reading = a.reading;
        accepting = a.accepting;
        counted = (
          n + 1,
          omega (arith, length-set_last {0} (mark_text got_text) k.session.recv_queue, l),
          omega (arith, c),
        );
        sound = a.sound;
      })

  on_recv-RecvInv :
      (ec : ErrorCode) (got_text : Bool) (k : Connection W)
      → At 1 k
      → RecvInv (on_recv sv ec got_text k)
  unfolding on_recv recv_failed
  on_recv-RecvInv success got_text k a =
      received_into-RecvInv got_text k k.session.recv_queue refl a
  on_recv-RecvInv stream_truncated got_text k a = on_close_At-RecvInv stream_truncated k a
  on_recv-RecvInv websocket_closed got_text k a = on_close_At-RecvInv websocket_closed k a
  on_recv-RecvInv ec got_text k a =
      on_close_At-RecvInv ec (report sv Stage.recv ec k) (report-At Stage.recv ec k a)

  sent_from-RecvInv :
      (bytes : ℕ) (k : Connection W) (q : List BufferNode)
      → RecvInv k
      → RecvInv (sent_from sv bytes k q)
  unfolding sent_from node_sent partly_sent
  sent_from-RecvInv bytes k [] v = v
  sent_from-RecvInv bytes k (node ∷ rest) v =
      if_cases RecvInv (ltb bytes (length node.buffer)) (partly_sent bytes k node rest)
        (node_sent sv k rest) (λ _. v)
        λ _.
          then_send-RecvInv (call sent (sv.on_send k.world) (pop_sent k rest))
            (quiet-RecvInv sent (sv.on_send k.world) (pop_sent k rest) (d.sends k.world) v)

  on_send-RecvInv :
      (ec : ErrorCode) (bytes : ℕ) (k : Connection W) → RecvInv k → RecvInv (on_send sv ec bytes k)
  unfolding on_send send_failed
  on_send-RecvInv success bytes k v = sent_from-RecvInv bytes k k.session.send_queue v
  on_send-RecvInv stream_truncated bytes k v = on_close-RecvInv stream_truncated k v
  on_send-RecvInv ec bytes k v =
      on_close-RecvInv ec (report sv Stage.send ec k) (report-RecvInv Stage.send ec k v)

  exclusive : (k : Connection W) → k.reading ≡ true → RecvInv k → k.accepting ≡ false
  exclusive k e v = elim (Bool-cases k.accepting) [
    | inl still ↦ absurd (true≢false (sym e ∙ (v.accepts still).0))
    | inr over ↦ over
  ]

  -- The connection whose read ends, as its handler finds it.
  end_read-At :
      (content : Bytes) (k : Connection W)
      → k.reading ≡ true
      → RecvInv k
      → At 1 (end_read content k)
  end_read-At content k e v = record {
    reading = refl;
    accepting = exclusive k e v;
    counted =
        let (n, l, c) = v.reads e in
        (
          n,
          length-set_last {0} (λ node. record node { buffer = content }) k.session.recv_queue ∙ l,
          c,
        );
    sound = v.sound;
  }

  Step-RecvInv : (k k' : Connection W) → Step sv k k' → RecvInv k → RecvInv k'
  unfolding send_buffer_fill
  Step-RecvInv k k' (accepted ec e) v =
      on_accept-RecvInv ec (record k { accepting = false })
        (record {
          reading = (v.accepts e).0;
          accepting = refl;
          counted = (v.accepts e).1;
          sound = v.sound;
        })
  Step-RecvInv k k' (read got_text content e) v =
      on_recv-RecvInv success got_text (deliver got_text content k) (end_read-At content k e v)
  Step-RecvInv k k' (read_failed ec got_text content bad e) v =
      on_recv-RecvInv ec got_text (end_read content k) (end_read-At content k e v)
  Step-RecvInv k k' (wrote node bytes e whole) v =
      on_send-RecvInv success bytes (end_write node k) v
  Step-RecvInv k k' (write_failed ec node bytes bad e) v =
      on_send-RecvInv ec bytes (record k { writing = none }) v
  Step-RecvInv k k' (closed ec n e) v = on_close-RecvInv ec (record k { closing = n }) v
  Step-RecvInv k k' (posted node rest e) v = on_post-RecvInv node (record k { posted = rest }) v
  Step-RecvInv k k' (filled_outside is_text content) v = v

  -- If the service makes no call of recv_buffer_drop in on_send, on_error and on_close, then in every
  -- reachable connection recv_queue_size counts the nodes of the receive queue (as a std::size_t),
  -- all but one while a read is outstanding; with none outstanding it counts them all, or, once the
  -- connection is marked as closed, possibly all but one. While async_accept is outstanding there is
  -- no read and no uncounted node. on_recv has always found a node, and no two reads overlapped.
  pub Reachable-RecvInv : (k : Connection W) → Reachable sv k → RecvInv k
  unfolding accept run
  Reachable-RecvInv k (server world address) = record {
    reads = λ e. cc;
    rests = λ e. inl (0, refl, refl);
    accepts = λ e. (refl, (0, refl, refl));
    sound = refl;
  }
  Reachable-RecvInv k (client identity world address) =
      let k₁ = start world (Session.new address) in
      called_then_recv-RecvInv (connected identity) (sv.on_connect k₁.world identity) k₁
        (record { reading = refl; accepting = refl; counted = (0, refl, refl); sound = refl })
  Reachable-RecvInv k (next {k = k₀} r st) = Step-RecvInv k₀ k st (Reachable-RecvInv k₀ r)

  -- A queue with one node, that no message is in
  one_node :
      (s : Session) (q : List BufferNode) (n : ℕ) (content : Bytes)
      → length q ≡ n + 1
      → length q ≤ size_mod
      → s.recv_queue_size ≡ n % size_mod
      → s.recv_queue_size ≡ 0
      → (node : BufferNode) × (q ≡ node ∷ [])
        × (fill_last content q ≡ record node { buffer = content } ∷ [])
        × (not (Members.is_empty q) ≡ true)
        × ((Members.drop_front s q).1 ≡ true)
        × ((Members.drop_front s q).0.recv_queue ≡ [])
        × ((Members.drop_front s q).0.recv_queue_size ≡ size_mod - 1)
  one_node s [] n content l fits c none_yet = absurd (omega arith)
  one_node s (node ∷ []) n content l fits c none_yet =
      (node, refl, refl, refl, refl, refl, omega arith)
  one_node s (node ∷ _ ∷ q) n content l fits c none_yet = absurd (omega arith)

  -- If the service calls recv_buffer_drop in none of on_send, on_error and on_close, then in a
  -- reachable connection, while a read is outstanding and recv_queue_size is 0, with no more than
  -- 2^64 nodes in the receive queue: the queue holds one node, the one that the read puts a
  -- content into when it ends, recv_buffer_has_data answers true, and recv_buffer_drop succeeds,
  -- leaves the queue empty and sets recv_queue_size to 2^64 - 1.
  pub pending_read_looks_like_data :
      (k : Connection W) (content : Bytes)
      → Reachable sv k
      → k.reading ≡ true
      → Members.recv_queue_size k.session ≡ 0
      → length k.session.recv_queue ≤ size_mod
      → let dropped = Members.recv_buffer_drop k.session in
        (node : BufferNode) × (k.session.recv_queue ≡ node ∷ [])
        × ((end_read content k).session.recv_queue ≡ record node { buffer = content } ∷ [])
        × (Members.recv_buffer_has_data k.session ≡ true)
        × (dropped.1 ≡ true)
        × (dropped.0.recv_queue ≡ [])
        × (dropped.0.recv_queue_size ≡ size_mod - 1)
  unfolding Members.recv_queue_size Members.recv_buffer_has_data Members.recv_buffer_drop
  pending_read_looks_like_data k content r e c fits =
      let (n, l, counted) = (Reachable-RecvInv k r).reads e in
      one_node k.session k.session.recv_queue n content l fits counted c
