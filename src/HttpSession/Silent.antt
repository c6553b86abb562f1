-- ===== src/HttpSession/Silent.antt =====
-- A session (inc/http_session_base.hpp) whose protocols have no http or https for it: the service is never
-- asked.
use mathlib.Core.Bool.{true≢false}
use boost_web.Common.{
  ℕ, ◌≡◌, refl, sym, ap, ◌∙◌, Bool, false, not, ◌&&◌, ◌==◌, List, [], ◌∷◌, Option, none, some,
  if_cases, length, tail,
}
use Prim.Native.Nat.{bit_and}
use boost_web.Address.{Address}
use boost_web.Errors.{ErrorCode, success, failed, is_truncated, is_end_of_stream}
use boost_web.Protocol.{protocol_wsss, protocol_httpss, meets}
use boost_web.DetectSession.{Transport, plain, ssl}
use boost_web.HttpSession.{
  Handler, Session, new, run, run_of, recv, eof, eof_of, on_handshake, on_recv, on_send,
  on_shutdown, request_received, upgrade, recv_failed, send_failed, recv_again, pop, send,
  start_write, allowed, max_support_protocol, report, queue_limit,
}
use boost_web.HttpSession.Events.{
  Step, Steps, handshook, read, read_failed, wrote, write_failed, shut, here, more, end_write,
}

module _ {W : Type 0} (h : Handler W) (w : W) (t : Transport) (p : ℕ) where
  abbrev pub Silent : Session h → Type 0
  Silent s = record {
    transport : s.transport ≡ t;
    protocol : s.protocol ≡ p;
    handled : s.handled ≡ [];
    queued : s.response_queue ≡ [];
    world : s.world ≡ w;
  }

  run_of-Silent : (t' : Transport) (s : Session h) → Silent s → Silent (run_of h t' s)
  unfolding run_of recv
  run_of-Silent plain s v = v
  run_of-Silent ssl s v = v

  -- A session as it is when it is run
  pub run-Silent :
      (address : Address) (timeout body_limit : ℕ)
      → Silent (run h (new h address timeout body_limit p t w))
  unfolding run
  run-Silent address timeout body_limit =
      run_of-Silent t (new h address timeout body_limit p t w)
        record { transport = refl; protocol = refl; handled = refl; queued = refl; world = refl }

  eof-Silent_of : (t' : Transport) (s : Session h) → Silent s → Silent (eof_of h t' s)
  unfolding eof_of
  eof-Silent_of plain s v = v
  eof-Silent_of ssl s v = v

  eof-Silent : (s : Session h) → Silent s → Silent (eof h s)
  unfolding eof
  eof-Silent s = eof-Silent_of s.transport s

  on_handshake-Silent : (ec : ErrorCode) (s : Session h) → Silent s → Silent (on_handshake h ec s)
  unfolding on_handshake report recv
  on_handshake-Silent ec s v =
      if_cases Silent (failed ec) _ _ (λ _. if_cases Silent (is_truncated ec) _ _ (λ _. v) (λ _. v))
        (λ _. v)

  on_shutdown-Silent : (ec : ErrorCode) (s : Session h) → Silent s → Silent (on_shutdown h ec s)
  unfolding on_shutdown report
  on_shutdown-Silent ec s v =
      if_cases Silent (failed ec && not (is_truncated ec)) _ _ (λ _. v) (λ _. v)

  recv_failed-Silent : (ec : ErrorCode) (s : Session h) → Silent s → Silent (recv_failed h ec s)
  unfolding recv_failed report
  recv_failed-Silent ec s v =
      if_cases Silent (is_end_of_stream ec) _ _ (λ _. eof-Silent s v)
        (λ _. if_cases Silent (is_truncated ec) _ _ (λ _. v) (λ _. v))

  start_write-Silent :
      (s : Session h) (o : Option (h.Response × Bool)) (q : List h.Response)
      → Silent s
      → Silent (start_write h s o q)
  unfolding start_write
  start_write-Silent s o [] v = v
  start_write-Silent s none (x ∷ q) v = v
  start_write-Silent s (some x) (y ∷ q) v = v

  pop-Silent : (s : Session h) → Silent s → Silent (pop h s)
  unfolding pop
  pop-Silent s v = record {
    transport = v.transport;
    protocol = v.protocol;
    handled = v.handled;
    queued = ap tail v.queued;
    world = v.world;
  }

  on_send-Silent :
      (close : Bool) (ec : ErrorCode) (s : Session h) → Silent s → Silent (on_send h close ec s)
  unfolding on_send send_failed report send recv_again recv
  on_send-Silent close ec s v =
      let k = recv_again h s in
      let again =
        if_cases Silent (length s.response_queue == queue_limit) (recv h s) s (λ _. v) (λ _. v) in
      if_cases Silent (failed ec) _ _ (λ _. if_cases Silent (is_truncated ec) _ _ (λ _. v) (λ _. v))
        (λ _.
          if_cases Silent close _ _ (λ _. eof-Silent s v)
            (λ _.
              start_write-Silent (pop h k) (pop h k).writing (pop h k).response_queue
                (pop-Silent k again)))

  module _ (off : meets protocol_httpss (bit_and (max_support_protocol t) p) ≡ false) where
    request_received-Silent :
        (req : h.Request) (s : Session h) → Silent s → Silent (request_received h req s)
    unfolding request_received upgrade report allowed
    request_received-Silent req s v =
        let off' : meets protocol_httpss (allowed h s) ≡ false =
          ap (λ t'. meets protocol_httpss (bit_and (max_support_protocol t') s.protocol))
            v.transport
          ∙ ap (λ p'. meets protocol_httpss (bit_and (max_support_protocol t) p')) v.protocol
          ∙ off in
        if_cases Silent (h.is_upgrade req) _ _
          (λ _. if_cases Silent (meets protocol_wsss (allowed h s)) _ _ (λ _. v) (λ _. v))
          (λ _.
            if_cases Silent (meets protocol_httpss (allowed h s)) _ _
              (λ on. absurd (true≢false (sym on ∙ off'))) (λ _. v))

    on_recv-Silent :
        (ec : ErrorCode) (req : h.Request) (s : Session h) → Silent s → Silent (on_recv h ec req s)
    unfolding on_recv
    on_recv-Silent ec req s v =
        if_cases Silent (failed ec) _ _ (λ _. recv_failed-Silent ec s v)
          (λ _. request_received-Silent req s v)

    Step-Silent : (s s' : Session h) → Step h s s' → Silent s → Silent s'
    Step-Silent s s' (handshook ec e) v =
        on_handshake-Silent ec (record s { handshaking = false }) v
    Step-Silent s s' (read req e) v = on_recv-Silent success req (record s { reading = false }) v
    Step-Silent s s' (read_failed ec req bad e) v =
        on_recv-Silent ec req (record s { reading = false }) v
    Step-Silent s s' (wrote res close e) v = on_send-Silent close success (end_write h res s) v
    Step-Silent s s' (write_failed ec res close bad e) v =
        on_send-Silent close ec (record s { writing = none }) v
    Step-Silent s s' (shut ec n e) v = on_shutdown-Silent ec (record s { shutting = n }) v

    pub Steps-Silent : (s₀ s : Session h) → Steps h s₀ s → Silent s₀ → Silent s
    Steps-Silent s₀ _ here v = v
    Steps-Silent s₀ s (more {s = s₁} steps st) v = Step-Silent s₁ s st (Steps-Silent s₀ s₁ steps v)
