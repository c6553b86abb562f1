-- ===== src/HttpSession/Pipeline/Closing.antt =====
-- What follows a response of inc/http_session_base.hpp that does not keep the connection alive.
use boost_web.Common.{
  ◌≡◌, refl, Bool, true, false, List, [], ◌∷◌, ◌++◌, Option, none, some, if_cases,
}
use boost_web.Errors.{ErrorCode, success, stream_truncated, end_of_stream}
use boost_web.DetectSession.{Transport, plain, ssl}
use boost_web.HttpSession.{
  recv_more, send_first, push, Handler, Session, recv, eof, eof_of, respond, upgrade,
  request_received, recv_failed, on_handshake, on_shutdown, on_recv, on_send,
}
use boost_web.HttpSession.Events.{
  Steps, here, more, Step, handshook, read, read_failed, wrote, write_failed, shut, Reachable,
  end_write,
}
use boost_web.HttpSession.Pipeline.{InFlight, NonEmpty, two_left}
use boost_web.HttpSession.Pipeline.Steps.{Reachable-PipelineInv}

module _ {W : Type 0} (h : Handler W) where
  open h use {Request, Response, is_upgrade}

  -- Nothing is being written, an entry stays in the queue, and `w` has been written.
  abbrev Ended : List Response → Session h → Type 0
  Ended w s = (s.writing ≡ none) × NonEmpty h s.response_queue × (s.written ≡ w)

  eof_of-Ended :
      (w : List Response) (t : Transport) (s : Session h) → Ended w s → Ended w (eof_of h t s)
  unfolding eof_of
  eof_of-Ended w plain s f = f
  eof_of-Ended w ssl s f = f

  eof-Ended : (w : List Response) (s : Session h) → Ended w s → Ended w (eof h s)
  unfolding eof
  eof-Ended w s f = eof_of-Ended w s.transport s f

  recv_more-Ended : (w : List Response) (s : Session h) → Ended w s → Ended w (recv_more h s)
  unfolding recv_more recv
  recv_more-Ended w s f = if_cases (Ended w) _ _ _ (λ _. f) (λ _. f)

  -- Behind an entry that stays, a new response is queued and not sent.
  send_first-Ended :
      (w : List Response) (res : Response) (world : W) (s : Session h) (q : List Response)
      → Ended w (record s { response_queue = q })
      → Ended w (send_first h (push h res world (record s { response_queue = q })))
  unfolding send_first push
  send_first-Ended w res world s [] f = absurd f.1
  send_first-Ended w res world s (x ∷ q) f = rw (two_left h q res, send_first) (f.0, tt, f.2)

  respond-Ended :
      (w : List Response) (req : Request) (s : Session h) → Ended w s → Ended w (respond h req s)
  unfolding respond
  respond-Ended w req s f =
      let (res, world) = h.handle_request s.world s.address req in
      recv_more-Ended w (send_first h (push h res world s))
        (send_first-Ended w res world s s.response_queue f)

  request_received-Ended :
      (w : List Response) (req : Request) (s : Session h)
      → Ended w s
      → Ended w (request_received h req s)
  unfolding request_received upgrade
  request_received-Ended w req s f =
      if_cases (Ended w) (is_upgrade req) (upgrade h req s) _
        (λ _. if_cases (Ended w) _ _ _ (λ _. f) (λ _. f))
        (λ _. if_cases (Ended w) _ (respond h req s) _ (λ _. respond-Ended w req s f) (λ _. f))

  on_recv-Ended :
      (w : List Response) (ec : ErrorCode) (req : Request) (s : Session h)
      → Ended w s
      → Ended w (on_recv h ec req s)
  unfolding on_recv recv_failed
  on_recv-Ended w success req s f = request_received-Ended w req s f
  on_recv-Ended w end_of_stream req s f = eof-Ended w s f
  on_recv-Ended w stream_truncated req s f = f
  on_recv-Ended w ec req s f = f

  on_handshake-Ended :
      (w : List Response) (ec : ErrorCode) (s : Session h)
      → Ended w s
      → Ended w (on_handshake h ec s)
  unfolding on_handshake recv
  on_handshake-Ended w success s f = f
  on_handshake-Ended w stream_truncated s f = f
  on_handshake-Ended w ec s f = f

  on_shutdown-Ended :
      (w : List Response) (ec : ErrorCode) (s : Session h)
      → Ended w s
      → Ended w (on_shutdown h ec s)
  unfolding on_shutdown
  on_shutdown-Ended w success s f = f
  on_shutdown-Ended w stream_truncated s f = f
  on_shutdown-Ended w ec s f = f

  Step-Ended : (w : List Response) (s s' : Session h) → Step h s s' → Ended w s → Ended w s'
  Step-Ended w s s' (handshook ec e) f =
      on_handshake-Ended w ec (record s { handshaking = false }) f
  Step-Ended w s s' (read req e) f = on_recv-Ended w success req (record s { reading = false }) f
  Step-Ended w s s' (read_failed ec req bad e) f =
      on_recv-Ended w ec req (record s { reading = false }) f
  Step-Ended w s s' (wrote res close e) f = cc (f.0)
  Step-Ended w s s' (write_failed ec res close bad e) f = cc (f.0)
  Step-Ended w s s' (shut ec n e) f = on_shutdown-Ended w ec (record s { shutting = n }) f

  Steps-Ended : (w : List Response) (s s' : Session h) → Steps h s s' → Ended w s → Ended w s'
  Steps-Ended w s s' here f = f
  Steps-Ended w s s' (more {s = s₁} r st) f = Step-Ended w s₁ s' st (Steps-Ended w s s₁ r f)

  after_close :
      (s : Session h) (v : Option (Response × Bool)) (q : List Response) (res : Response)
      → v ≡ some (res, true)
      → InFlight h v q
      → Ended
          (s.written ++ res ∷ [])
          (on_send h true success (end_write h res (record s { writing = v; response_queue = q })))
  unfolding on_send
  after_close s none q res e f = cc
  after_close s (some _) [] res e f = absurd f
  after_close s v (x ∷ q) res e f =
      eof-Ended (s.written ++ res ∷ [])
        (end_write h res (record s { writing = v; response_queue = x ∷ q })) (refl, tt, refl)

  -- After the write of a response with `close` in a reachable session, in whatever order the loop goes on,
  -- no other response is ever written and none is being written.
  pub closing_response_is_last :
      (s s' : Session h) (res : Response)
      → Reachable h s
      → s.writing ≡ some (res, true)
      → Steps h (on_send h true success (end_write h res s)) s'
      → (s'.written ≡ s.written ++ res ∷ []) × (s'.writing ≡ none)
  closing_response_is_last s s' res r e steps =
      let v = Reachable-PipelineInv h s r in
      let f =
        Steps-Ended (s.written ++ res ∷ []) (on_send h true success (end_write h res s)) s' steps
          (after_close s s.writing s.response_queue res e v.in_flight) in
      (f.2, f.0)
