-- ===== src/HttpSession/Pipeline/Handlers.antt =====
-- Each handler of inc/http_session_base.hpp keeps the invariant of the pipeline.
use boost_web.Common.{
  ==_iff, ◌≡◌, ◌≤◌, ◌<◌, ◌==◌, refl, inl, inr, ◌⊎◌, Bool, true, false, List, [], ◌∷◌, ◌++◌, Option,
  none, some, length, append_assoc, arith, if_cases, Bool-cases,
}
use boost_web.Errors.{ErrorCode, success, stream_truncated, end_of_stream, failed}
use boost_web.DetectSession.{Transport, plain, ssl}
use boost_web.HttpSession.{
  Handler, Session, queue_limit, recv, send, start_write, eof, eof_of, pop, respond, upgrade,
  request_received, recv_failed, send_failed, on_send,
}
use boost_web.HttpSession.Events.{end_write}
use boost_web.HttpSession.Pipeline.{
  InFlight, Pending, Finished, PipelineInv, on_wire, respond-PipelineInv,
}

module _ {W : Type 0} (h : Handler W) where
  open h use {Request, Response, keep_alive, is_upgrade}

  eof_of-PipelineInv :
      (t : Transport) (s : Session h) → PipelineInv h s → PipelineInv h (eof_of h t s)
  unfolding eof_of
  eof_of-PipelineInv plain s v = v
  eof_of-PipelineInv ssl s v = v

  eof-PipelineInv : (s : Session h) → PipelineInv h s → PipelineInv h (eof h s)
  unfolding eof
  eof-PipelineInv s v = eof_of-PipelineInv s.transport s v

  pub recv_failed-PipelineInv :
      (ec : ErrorCode) (s : Session h) → PipelineInv h s → PipelineInv h (recv_failed h ec s)
  unfolding recv_failed
  recv_failed-PipelineInv end_of_stream s v = eof-PipelineInv s v
  recv_failed-PipelineInv stream_truncated s v = v
  recv_failed-PipelineInv ec s v = v

  send_failed-PipelineInv :
      (ec : ErrorCode) (s : Session h) → PipelineInv h s → PipelineInv h (send_failed h ec s)
  unfolding send_failed
  send_failed-PipelineInv stream_truncated s v = v
  send_failed-PipelineInv ec s v = v

  upgrade-PipelineInv :
      (req : Request) (s : Session h) → PipelineInv h s → PipelineInv h (upgrade h req s)
  unfolding upgrade
  upgrade-PipelineInv req s v = if_cases (PipelineInv h) _ _ _ (λ _. v) (λ _. v)

  pub request_received-PipelineInv :
      (req : Request) (s : Session h)
      → s.reading ≡ false
      → s.handshaking ≡ false
      → length s.response_queue < queue_limit
      → PipelineInv h s
      → PipelineInv h (request_received h req s)
  unfolding request_received
  request_received-PipelineInv req s e n l v =
      if_cases (PipelineInv h) (is_upgrade req) (upgrade h req s) _
        (λ _. upgrade-PipelineInv req s v)
        λ _.
          if_cases (PipelineInv h) _ (respond h req s) _ (λ _. respond-PipelineInv h req s e n l v)
            (λ _. v)

  pub on_send_failed-PipelineInv :
      (close : Bool) (ec : ErrorCode) (s : Session h)
      → failed ec ≡ true
      → PipelineInv h s
      → PipelineInv h (on_send h close ec s)
  unfolding on_send
  on_send_failed-PipelineInv close success s bad v = cc
  on_send_failed-PipelineInv close ec s bad v = send_failed-PipelineInv ec s v

  -- What is being written, and the rest of the queue behind it.
  in_order :
      (s : Session h) (w : Option (Response × Bool)) (front : Response) (rest : List Response)
      (res : Response) (close : Bool)
      → w ≡ some (res, close)
      → InFlight h w (front ∷ rest)
      → Pending h (on_wire h s w (front ∷ rest)) ⊎ Finished h (on_wire h s w (front ∷ rest))
      → s.handled ≡ (s.written ++ res ∷ []) ++ rest
  in_order s none front rest res close e f o = cc
  in_order s (some (r, c)) front rest res close e (same, _) (inl p) =
      let it : res ≡ front = cc in simp (p, it, append_assoc)
  in_order s (some (r, c)) front rest res close e f (inr (idle, _, _)) = cc

  pop-PipelineInv :
      (s : Session h) (front : Response) (rest : List Response)
      → s.handled ≡ s.written ++ rest
      → length (front ∷ rest) ≤ queue_limit
      → s.handshaking ≡ false
      → s.fault ≡ false
      → PipelineInv h (send h (on_wire h s none rest))
  unfolding send start_write
  pop-PipelineInv s front [] p l n sound = record {
    bounded = omega arith;
    room = λ _. omega arith;
    exclusive = λ y. cc;
    in_flight = tt;
    ordered = inl p;
    sound = sound;
  }
  pop-PipelineInv s front (x ∷ rest) p l n sound = record {
    bounded = omega arith;
    room = λ _. omega arith;
    exclusive = λ y. cc;
    in_flight = (refl, refl);
    ordered = inl p;
    sound = sound;
  }

  -- With the queue full there is no read that another one could overlap.
  recv_full_sound :
      (s : Session h)
      → (s.reading ≡ true → length s.response_queue < queue_limit)
      → s.fault ≡ false
      → (length s.response_queue == queue_limit) ≡ true
      → (recv h s).fault ≡ false
  unfolding recv
  recv_full_sound s room sound full = elim (Bool-cases s.reading) [
    | inl busy ↦ absurd (omega (arith, room busy, (==_iff _ _).0 full))
    | inr idle ↦ rw (sound, idle)
  ]

  idle_handshake :
      (s : Session h) (front : Response) (rest : List Response)
      → (s.handshaking ≡ true → (s.reading ≡ false) × (front ∷ rest ≡ []))
      → s.handshaking ≡ false
  idle_handshake s front rest x = elim (Bool-cases s.handshaking) [
    | inl y ↦ cc ((x y).1)
    | inr n ↦ n
  ]

  pub on_send-PipelineInv :
      (s : Session h) (w : Option (Response × Bool)) (q : List Response) (res : Response)
      (close : Bool)
      → w ≡ some (res, close)
      → PipelineInv h (on_wire h s w q)
      → PipelineInv h (on_send h close success (end_write h res (on_wire h s w q)))
  unfolding on_send pop
  on_send-PipelineInv s none q res close e v = cc
  on_send-PipelineInv s (some _) [] res close e v = absurd v.in_flight
  on_send-PipelineInv s w (front ∷ rest) res true e v =
      eof-PipelineInv (end_write h res (on_wire h s w (front ∷ rest))) (record {
        bounded = v.bounded;
        room = v.room;
        exclusive = v.exclusive;
        in_flight = tt;
        ordered = inr (refl, tt, in_order s w front rest res true e v.in_flight v.ordered);
        sound = v.sound;
      })
  on_send-PipelineInv s w (front ∷ rest) res false e v =
      let s₁ = end_write h res (on_wire h s w (front ∷ rest)) in
      let p = in_order s w front rest res false e v.in_flight v.ordered in
      let n = idle_handshake s front rest v.exclusive in
      if_cases (λ s₂. PipelineInv h (send h (pop h s₂))) (length s₁.response_queue == queue_limit)
        (recv h s₁) s₁
        (λ full.
          pop-PipelineInv (recv h s₁) front rest p v.bounded n
            (recv_full_sound s₁ v.room v.sound full))
        (λ _. pop-PipelineInv s₁ front rest p v.bounded n v.sound)
