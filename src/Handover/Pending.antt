-- ===== src/Handover/Pending.antt =====
-- What an HTTP session (inc/http_session_base.hpp) has still to write when it gives its stream away.
use boost_web.Common.{◌≡◌, refl, true, false, not, List, ◌∷◌, none, some, if_cases, length, ◌==◌}
use boost_web.Errors.{success}
use boost_web.Protocol.{protocol_wsss, meets}
use boost_web.HttpSession.{
  Handler, Session, on_recv, request_received, upgrade, allowed, on_send, pop, send, start_write,
  recv_again, recv, queue_limit,
}

module _ {W : Type 0} (h : Handler W) where
  open h use {Request, Response, is_upgrade, keep_alive}

  -- The front response is taken off, and the write of the next one is started.
  goes_on :
      (s : Session h) (first second : Response) (rest : List Response)
      → let s' =
          on_send h false success
            (record s { response_queue = first ∷ second ∷ rest; writing = none }) in
        (s'.upgraded ≡ s.upgraded) × (s'.writing ≡ some (second, not (keep_alive second)))
  unfolding on_send recv_again recv pop send start_write
  goes_on s first second rest =
      let k = record s { response_queue = first ∷ second ∷ rest; writing = none } in
      if_cases
        (λ k'.
          ((send h (pop h k')).upgraded ≡ s.upgraded)
          × ((send h (pop h k')).writing ≡ some (second, not (keep_alive second))))
        (length k.response_queue == queue_limit) (recv h k) k (λ _. (refl, refl))
        (λ _. (refl, refl))

  -- A session whose protocols allow it gives its stream to a websocket session at a request to
  -- upgrade also while two or more responses are queued and the first one is being written: that
  -- write goes on, and when it ends well and is not closing, the next response is written to the
  -- stream that is gone.
  pub upgrade_leaves_responses :
      (s : Session h) (req : Request) (first second : Response) (rest : List Response)
      → is_upgrade req ≡ true
      → meets protocol_wsss (allowed h s) ≡ true
      → s.response_queue ≡ first ∷ second ∷ rest
      → let s' = on_recv h success req s in
        let s'' = on_send h false success (record s' { writing = none }) in
        (s'.upgraded ≡ some req)
        × (s'.writing ≡ s.writing)
        × (s''.upgraded ≡ some req)
        × (s''.writing ≡ some (second, not (keep_alive second)))
  unfolding on_recv request_received upgrade
  upgrade_leaves_responses s req first second rest up served q =
      let later = goes_on (record s { deadline = none; upgraded = some req }) first second rest in
      rw (up) (rw (served, q) (refl, refl, later.0, later.1))
