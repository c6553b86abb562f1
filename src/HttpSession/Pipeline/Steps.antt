-- ===== src/HttpSession/Pipeline/Steps.antt =====
-- Every round of the event loop of inc/http_session_base.hpp keeps the invariant of the pipeline.
use mathlib.Core.Bool.{true≢false}
use boost_web.Common.{
  ◌≡◌, refl, sym, ap, ◌∙◌, inl, inr, ◌⊎◌, Bool, true, false, [], none, some, length, arith,
  Bool-cases,
}
use boost_web.Errors.{ErrorCode, success, stream_truncated}
use boost_web.DetectSession.{Transport, plain, ssl}
use boost_web.HttpSession.{Handler, Session, new, run, run_of, on_handshake, on_shutdown, on_recv}
use boost_web.HttpSession.Events.{
  Step, handshook, read, read_failed, wrote, write_failed, shut, Reachable, running, next,
}
use boost_web.HttpSession.Pipeline.{Pending, Finished, PipelineInv, recv-PipelineInv}
use boost_web.HttpSession.Pipeline.Handlers.{
  recv_failed-PipelineInv, request_received-PipelineInv, on_send_failed-PipelineInv,
  on_send-PipelineInv,
}

module _ {W : Type 0} (h : Handler W) where
  open h use {Request, Response, keep_alive, is_upgrade}

  reading_not_handshaking :
      (s : Session h) → s.reading ≡ true → PipelineInv h s → s.handshaking ≡ false
  reading_not_handshaking s e v = elim (Bool-cases s.handshaking) [
    | inl y ↦ absurd (true≢false (sym e ∙ (v.exclusive y).0))
    | inr n ↦ n
  ]

  end_read-PipelineInv :
      (s : Session h) → PipelineInv h s → PipelineInv h (record s { reading = false })
  end_read-PipelineInv s v = record {
    bounded = v.bounded;
    room = λ y. cc;
    exclusive = λ y. (refl, (v.exclusive y).1);
    in_flight = v.in_flight;
    ordered = v.ordered;
    sound = v.sound;
  }

  ended_handshake :
      (s : Session h) → PipelineInv h s → PipelineInv h (record s { handshaking = false })
  ended_handshake s v = record {
    bounded = v.bounded;
    room = v.room;
    exclusive = λ y. cc;
    in_flight = v.in_flight;
    ordered = v.ordered;
    sound = v.sound;
  }

  on_handshake-PipelineInv :
      (ec : ErrorCode) (s : Session h)
      → s.handshaking ≡ true
      → PipelineInv h s
      → PipelineInv h (on_handshake h ec (record s { handshaking = false }))
  unfolding on_handshake
  on_handshake-PipelineInv success s e v =
      let (idle, empty) = v.exclusive e in
      recv-PipelineInv h (record s { handshaking = false }) idle refl
        (omega (arith, ap length empty)) (ended_handshake s v)
  on_handshake-PipelineInv stream_truncated s e v = ended_handshake s v
  on_handshake-PipelineInv ec s e v = ended_handshake s v

  on_shutdown-PipelineInv :
      (ec : ErrorCode) (s : Session h) → PipelineInv h s → PipelineInv h (on_shutdown h ec s)
  unfolding on_shutdown
  on_shutdown-PipelineInv success s v = v
  on_shutdown-PipelineInv stream_truncated s v = v
  on_shutdown-PipelineInv ec s v = v

  on_recv-PipelineInv :
      (ec : ErrorCode) (req : Request) (s : Session h)
      → s.reading ≡ true
      → PipelineInv h s
      → PipelineInv h (on_recv h ec req (record s { reading = false }))
  unfolding on_recv
  on_recv-PipelineInv success req s e v =
      request_received-PipelineInv h req (record s { reading = false }) refl
        (reading_not_handshaking s e v) (v.room e) (end_read-PipelineInv s v)
  on_recv-PipelineInv ec req s e v =
      recv_failed-PipelineInv h ec (record s { reading = false }) (end_read-PipelineInv s v)

  end_failed_write-PipelineInv :
      (s : Session h) (res : Response) (close : Bool)
      → s.writing ≡ some (res, close)
      → PipelineInv h s
      → PipelineInv h (record s { writing = none })
  end_failed_write-PipelineInv s res close e v = record {
    bounded = v.bounded;
    room = v.room;
    exclusive = v.exclusive;
    in_flight = tt;
    ordered = still v.ordered;
    sound = v.sound;
  }
    where
      still :
          Pending h s ⊎ Finished h s
          → Pending h (record s { writing = none }) ⊎ Finished h (record s { writing = none })
      still (inl p) = inl p
      still (inr (idle, some_left, p)) = inr (refl, some_left, p)

  pub Step-PipelineInv : (s s' : Session h) → Step h s s' → PipelineInv h s → PipelineInv h s'
  Step-PipelineInv s s' (handshook ec e) v = on_handshake-PipelineInv ec s e v
  Step-PipelineInv s s' (read req e) v = on_recv-PipelineInv success req s e v
  Step-PipelineInv s s' (read_failed ec req bad e) v = on_recv-PipelineInv ec req s e v
  Step-PipelineInv s s' (wrote res close e) v =
      on_send-PipelineInv h s s.writing s.response_queue res close e v
  Step-PipelineInv s s' (write_failed ec res close bad e) v =
      on_send_failed-PipelineInv h close ec (record s { writing = none }) bad
        (end_failed_write-PipelineInv s res close e v)
  Step-PipelineInv s s' (shut ec n e) v = on_shutdown-PipelineInv ec (record s { shutting = n }) v

  run_of-PipelineInv :
      (t : Transport) (s : Session h)
      → s.reading ≡ false
      → s.handshaking ≡ false
      → s.response_queue ≡ []
      → PipelineInv h s
      → PipelineInv h (run_of h t s)
  unfolding run_of
  run_of-PipelineInv plain s e n empty v =
      recv-PipelineInv h s e n (omega (arith, ap length empty)) v
  run_of-PipelineInv ssl s e n empty v = record {
    bounded = v.bounded;
    room = v.room;
    exclusive = λ _. (e, empty);
    in_flight = v.in_flight;
    ordered = v.ordered;
    sound = v.sound;
  }

  -- In every reachable session at most 8 responses are queued, and fewer than 8 while a read is
  -- outstanding; during the TLS handshake there is no read and no response; what is being written is
  -- the front response, and `close` is the negation of its keep_alive; the responses written and
  -- queued are, in this order, those made by handle_request, but that one response may stay in the
  -- queue after its write, and then nothing is being written; and no read and no write was started
  -- while another was outstanding.
  pub Reachable-PipelineInv : (s : Session h) → Reachable h s → PipelineInv h s
  unfolding run
  Reachable-PipelineInv s (running address timeout body_limit protocol transport world) =
      run_of-PipelineInv transport (new h address timeout body_limit protocol transport world) refl
        refl refl
        (record {
          bounded = omega arith;
          room = λ y. cc;
          exclusive = λ y. cc;
          in_flight = tt;
          ordered = inl refl;
          sound = refl;
        })
  Reachable-PipelineInv s (next {s = s₀} r st) =
      Step-PipelineInv s₀ s st (Reachable-PipelineInv s₀ r)
