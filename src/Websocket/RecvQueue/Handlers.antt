-- ===== src/Websocket/RecvQueue/Handlers.antt =====
-- What the operations of inc/websocket_session_base.hpp do to the count of the receive side.
use boost_web.Common.{
  ℕ, ◌≡◌, ◌∙◌, Bool, true, false, List, [], ◌∷◌, Option, none, some, length, arith, if_cases, inr,
  inl, ◌⊎◌, length-append, ◌==◌,
}
use boost_web.Websocket.Session.{BufferNode}
use boost_web.Websocket.Service.{Callback}
use boost_web.Websocket.Connection.{
  Connection, call, start_write, send_next, on_post, then_send, recv, then_recv, enqueue, perform,
  eof, send,
}
use boost_web.Websocket.Frame.{perform-Frame}
use boost_web.Websocket.RecvQueue.{NoDrop, Counted, perform-Counted, perform-Kept, Program}

module _ {W : Type 0} where
  abbrev pub RecvInv : Connection W → Type 0
  RecvInv k = record {
    reads : k.reading ≡ true → Counted 1 k;
    rests : k.reading ≡ false → Counted 0 k ⊎ ((k.session.has_close ≡ true) × Counted 1 k);
    accepts : k.accepting ≡ true → (k.reading ≡ false) × Counted 0 k;
    sound : k.recv_fault ≡ false;
  }

  -- Between two operations of the receive side, with `spare` nodes that are no messages.
  abbrev pub At : ℕ → Connection W → Type 0
  At spare k = record {
    reading : k.reading ≡ false;
    accepting : k.accepting ≡ false;
    counted : Counted spare k;
    sound : k.recv_fault ≡ false;
  }

  pub At-RecvInv : (k : Connection W) → At 0 k → RecvInv k
  At-RecvInv k a = record {
    reads = λ e. cc;
    rests = λ e. inl a.counted;
    accepts = λ e. cc;
    sound = a.sound;
  }

  pub At-closed-RecvInv : (k : Connection W) → k.session.has_close ≡ true → At 1 k → RecvInv k
  At-closed-RecvInv k shut a = record {
    reads = λ e. cc;
    rests = λ e. inr (shut, a.counted);
    accepts = λ e. cc;
    sound = a.sound;
  }

  recv-RecvInv : (k : Connection W) → At 0 k → RecvInv (recv k)
  unfolding recv
  recv-RecvInv k a = record {
    reads = λ _. (
      a.counted.0,
      omega (arith, length-append {0} k.session.recv_queue, a.counted.1),
      a.counted.2,
    );
    rests = λ e. cc;
    accepts = λ e. cc;
    sound = rw (a.sound, a.reading);
  }

  then_recv-RecvInv : (r : Bool × Connection W) → At 0 r.1 → RecvInv (then_recv r)
  unfolding then_recv
  then_recv-RecvInv (true, k) a = recv-RecvInv k a
  then_recv-RecvInv (false, k) a = At-RecvInv (eof k) a

  pub called_then_recv-RecvInv :
      (c : Callback) (p : Program W) (k : Connection W) → At 0 k → RecvInv (then_recv (call c p k))
  unfolding call
  called_then_recv-RecvInv c p k a =
      let k₁ = record k { callbacks = c ∷ k.callbacks } in
      let f = perform-Frame p k₁ in
      then_recv-RecvInv (perform p k₁) (record {
        reading = f.reading ∙ a.reading;
        accepting = f.accepting ∙ a.accepting;
        counted = perform-Counted p k₁ a.counted;
        sound = f.recv_fault ∙ a.sound;
      })

  pub quiet-At :
      (spare : ℕ) (c : Callback) (p : Program W) (k : Connection W)
      → NoDrop p
      → At spare k
      → At spare (call c p k).1
  unfolding call
  quiet-At spare c p k d a =
      let k₁ = record k { callbacks = c ∷ k.callbacks } in
      let f = perform-Frame p k₁ in
      let kept = perform-Kept p k₁ d in
      record {
        reading = f.reading ∙ a.reading;
        accepting = f.accepting ∙ a.accepting;
        counted = rw (kept.0, kept.1) a.counted;
        sound = f.recv_fault ∙ a.sound;
      }

  pub quiet-RecvInv :
      (c : Callback) (p : Program W) (k : Connection W)
      → NoDrop p
      → RecvInv k
      → RecvInv (call c p k).1
  unfolding call
  quiet-RecvInv c p k d v =
      let k₁ = record k { callbacks = c ∷ k.callbacks } in
      let f = perform-Frame p k₁ in
      let kept = perform-Kept p k₁ d in
      record {
        reads = rw (f.reading, kept.0, kept.1) v.reads;
        rests = rw (f.reading, f.has_close, kept.0, kept.1) v.rests;
        accepts = rw (f.accepting, f.reading, kept.0, kept.1) v.accepts;
        sound = f.recv_fault ∙ v.sound;
      }

  start_write-RecvInv :
      (k : Connection W) (w : Option BufferNode) (q : List BufferNode)
      → RecvInv k
      → RecvInv (start_write k w q)
  unfolding start_write
  start_write-RecvInv k w [] v = v
  start_write-RecvInv k none (_ ∷ _) v = v
  start_write-RecvInv k (some _) (_ ∷ _) v = v

  pub on_post-RecvInv :
      (node : BufferNode) (k : Connection W) → RecvInv k → RecvInv (on_post node k)
  unfolding on_post
  on_post-RecvInv node k v =
      let k' = enqueue node k in
      if_cases RecvInv (length k'.session.send_queue == 1) (send k') k'
        (λ _. start_write-RecvInv k' k'.writing k'.session.send_queue v) (λ _. v)

  send_next-RecvInv : (k : Connection W) (q : List BufferNode) → RecvInv k → RecvInv (send_next q k)
  unfolding send_next
  send_next-RecvInv k [] v = v
  send_next-RecvInv k (_ ∷ _) v = start_write-RecvInv k k.writing k.session.send_queue v

  pub then_send-RecvInv : (r : Bool × Connection W) → RecvInv r.1 → RecvInv (then_send r)
  unfolding then_send
  then_send-RecvInv (true, k) v = send_next-RecvInv k k.session.send_queue v
  then_send-RecvInv (false, k) v = v
