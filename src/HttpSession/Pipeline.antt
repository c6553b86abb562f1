-- ===== src/HttpSession/Pipeline.antt =====
-- The pipeline of inc/http_session_base.hpp: how far it reads ahead, and in which order it writes.
pub mod Handlers
pub mod Steps
pub mod Closing
use boost_web.Common.{
  append-nil, ℕ, suc, ◌≡◌, ◌≤◌, ◌<◌, ◌+◌, ◌==◌, ltb, refl, sym, ap, ◌∙◌, inl, inr, ◌⊎◌, not, Bool,
  true, false, List, [], ◌∷◌, ◌++◌, Option, none, some, tail, length, length-append, append_assoc,
  arith, if_cases,
}
use boost_web.Errors.{ErrorCode, success, stream_truncated, failed}
use boost_web.HttpSession.{
  Handler, Session, queue_limit, new, run, recv, send, start_write, push, send_first, recv_more,
  recv_again, pop, respond,
}

module _ {W : Type 0} (h : Handler W) where
  open h use {Request, Response, keep_alive}

  -- What is being written is the front response, with `close` read off it.
  abbrev pub InFlight : Option (Response × Bool) → List Response → Type 0
  InFlight none queue = Unit
  InFlight (some _) [] = ⊥
  InFlight (some (res, close)) (front ∷ _) = (res ≡ front) × (close ≡ not (keep_alive front))

  abbrev pub NonEmpty : List Response → Type 0
  NonEmpty [] = ⊥
  NonEmpty (_ ∷ _) = Unit

  abbrev pub Pending : Session h → Type 0
  Pending s = s.handled ≡ s.written ++ s.response_queue

  -- The last response that will be written is out: its entry stays in the queue.
  abbrev pub Finished : Session h → Type 0
  Finished s =
      (s.writing ≡ none)
      × NonEmpty s.response_queue
      × (s.handled ≡ s.written ++ tail s.response_queue)

  abbrev pub PipelineInv : Session h → Type 0
  PipelineInv s = record {
    bounded : length s.response_queue ≤ queue_limit;
    room : s.reading ≡ true → length s.response_queue < queue_limit;
    exclusive : s.handshaking ≡ true → (s.reading ≡ false) × (s.response_queue ≡ []);
    in_flight : InFlight s.writing s.response_queue;
    ordered : Pending s ⊎ Finished s;
    sound : s.fault ≡ false;
  }

  -- The session with other contents of the two fields.
  abbrev pub on_wire : Session h → Option (Response × Bool) → List Response → Session h
  on_wire s w q = record s { writing = w; response_queue = q }

  pub recv-PipelineInv :
      (s : Session h)
      → s.reading ≡ false
      → s.handshaking ≡ false
      → length s.response_queue < queue_limit
      → PipelineInv s
      → PipelineInv (recv h s)
  unfolding recv
  recv-PipelineInv s e n l v = record {
    bounded = v.bounded;
    room = λ _. l;
    exclusive = λ y. cc;
    in_flight = v.in_flight;
    ordered = v.ordered;
    sound = rw (v.sound, e);
  }

  recv_more-PipelineInv :
      (s : Session h)
      → s.reading ≡ false
      → s.handshaking ≡ false
      → PipelineInv s
      → PipelineInv (recv_more h s)
  unfolding recv_more
  recv_more-PipelineInv s e n v =
      if_cases PipelineInv (ltb (length s.response_queue) queue_limit) (recv h s) s
        (λ l. recv-PipelineInv s e n (ground arith) v) (λ _. v)

  pub two_left : (q : List Response) (res : Response) → (suc (length (q ++ res ∷ [])) == 1) ≡ false
  two_left q res = ground (arith, length-append q (res ∷ []))

  longer :
      (q : List Response) (x res : Response)
      → length (x ∷ q) < queue_limit
      → length (x ∷ q ++ res ∷ []) ≤ queue_limit
  longer q x res l = omega (arith, length-append {0} q (res ∷ []))

  first_in_order :
      (s : Session h) (res : Response)
      → Pending (on_wire s none []) ⊎ Finished (on_wire s none [])
      → s.handled ++ res ∷ [] ≡ s.written ++ res ∷ []
  first_in_order s res (inl p) = rw (p, append-nil)
  first_in_order s res (inr (_, some_left, _)) = absurd some_left

  next_in_order :
      (s : Session h) (w : Option (Response × Bool)) (x : Response) (q : List Response)
      (res : Response) (world : W)
      → Pending (on_wire s w (x ∷ q)) ⊎ Finished (on_wire s w (x ∷ q))
      → let s' = push h res world (on_wire s w (x ∷ q)) in Pending s' ⊎ Finished s'
  unfolding push
  next_in_order s w x q res world (inl p) = inl (simp (p, append_assoc))
  next_in_order s w x q res world (inr (e, _, p)) = inr (e, tt, simp (p, append_assoc))

  InFlight-append :
      (w : Option (Response × Bool)) (x res : Response) (q : List Response)
      → InFlight w (x ∷ q)
      → InFlight w (x ∷ q ++ res ∷ [])
  InFlight-append none x res q f = tt
  InFlight-append (some (r, c)) x res q f = f

  pub send_first-PipelineInv :
      (res : Response) (world : W) (s : Session h) (w : Option (Response × Bool))
      (q : List Response)
      → s.reading ≡ false
      → s.handshaking ≡ false
      → length q < queue_limit
      → PipelineInv (on_wire s w q)
      → PipelineInv (send_first h (push h res world (on_wire s w q)))
  unfolding send_first push
  send_first-PipelineInv res world s none [] e n l v = record {
    bounded = omega arith;
    room = λ y. cc;
    exclusive = λ y. cc;
    in_flight = (refl, refl);
    ordered = inl (first_in_order s res v.ordered);
    sound = v.sound;
  }
  send_first-PipelineInv res world s (some _) [] e n l v = absurd v.in_flight
  send_first-PipelineInv res world s w (x ∷ q) e n l v =
      rw (two_left q res, send_first)
        (record {
          bounded = longer q x res l;
          room = λ y. cc;
          exclusive = λ y. cc;
          in_flight = InFlight-append w x res q v.in_flight;
          ordered = next_in_order s w x q res world v.ordered;
          sound = v.sound;
        })

  abbrev SameReads : Session h → Session h → Type 0
  SameReads s s' = (s'.reading ≡ s.reading) × (s'.handshaking ≡ s.handshaking)

  start_write-reads :
      (s : Session h) (w : Option (Response × Bool)) (q : List Response)
      → SameReads s (start_write h s w q)
  unfolding start_write
  start_write-reads s w [] = (refl, refl)
  start_write-reads s none (_ ∷ _) = (refl, refl)
  start_write-reads s (some _) (_ ∷ _) = (refl, refl)

  send_first-reads : (s : Session h) → SameReads s (send_first h s)
  unfolding send_first
  send_first-reads s =
      if_cases (SameReads s) (length s.response_queue == 1) (send h s) s
        (λ _. start_write-reads s s.writing s.response_queue) (λ _. (refl, refl))

  pub respond-PipelineInv :
      (req : Request) (s : Session h)
      → s.reading ≡ false
      → s.handshaking ≡ false
      → length s.response_queue < queue_limit
      → PipelineInv s
      → PipelineInv (respond h req s)
  unfolding respond push
  respond-PipelineInv req s e n l v =
      let (res, world) = h.handle_request s.world s.address req in
      let same = send_first-reads (push h res world s) in
      recv_more-PipelineInv (send_first h (push h res world s)) (same.0 ∙ e) (same.1 ∙ n)
        (send_first-PipelineInv res world s s.writing s.response_queue e n l v)
