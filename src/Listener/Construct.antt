-- ===== src/Listener/Construct.antt =====
-- The constructor of Listener (src/listener.cpp): what it leaves, at whichever stage it ends.
use boost_web.Common.{
  ap, suc, String, List, ◌∷◌, ℕ, ◌≡◌, refl, ◌⊎◌, inl, inr, true, false, [], length, if_cases, Bytes,
}
use boost_web.Errors.{ErrorCode, Report, of_code, failed}
use boost_web.Listener.{
  Endpoint, Acceptor, Listener, then_open, after_open, after_reuse, after_bind, after_listen,
  construct, initial,
}

-- The Listener has the given members; it is good and has reported nothing, or is not and has reported
-- one error.
abbrev pub Built : Endpoint → ℕ → Listener → Type 0
Built endpoint protocol l =
    (l.endpoint ≡ endpoint)
    × (l.protocol ≡ protocol)
    × (l.accepting ≡ 0)
    × (l.sessions ≡ [])
    × (((l.good ≡ true) × (l.reports ≡ [])) ⊎ ((l.good ≡ false) × (length l.reports ≡ 1)))

-- The constructor has not come to an end.
Fresh : Endpoint → ℕ → Listener → Type 0
Fresh endpoint protocol l =
    (l.endpoint ≡ endpoint)
    × (l.protocol ≡ protocol)
    × (l.accepting ≡ 0)
    × (l.sessions ≡ [])
    × (l.good ≡ false)
    × (l.reports ≡ [])

module _ {W : Type 0} (acceptor : Acceptor W) where
  then_open-Built :
      (endpoint : Endpoint) (protocol : ℕ) (stage : String) (go_on : Listener → W → Listener × W)
      (l : Listener) (r : ErrorCode × W)
      → Fresh endpoint protocol l
      → ((w : W) → Built endpoint protocol (go_on l w).0)
      → Built endpoint protocol (then_open acceptor stage go_on l r).0
  unfolding then_open Fresh
  then_open-Built endpoint protocol stage go_on l (ec, w) (at, for, idle, unused, bad, silent)
        next =
      if_cases (λ (x : Listener × W). Built endpoint protocol x.0) (failed ec)
        (record l { reports = of_code "listener" stage ec ∷ l.reports }, w) (go_on l w)
        (λ _. (at, for, idle, unused, inr (bad, ap (λ (x : List Report). suc (length x)) silent)))
        (λ _. next w)

  Then : (Listener → W → Listener × W) → Type 0
  Then go_on =
      (endpoint : Endpoint) (protocol : ℕ) (l : Listener) (w : W)
      → Fresh endpoint protocol l
      → Built endpoint protocol (go_on l w).0

  after_listen-Built : Then (after_listen acceptor)
  unfolding Then after_listen Fresh
  after_listen-Built endpoint protocol l w (at, for, idle, unused, bad, silent) =
      (at, for, idle, unused, inl (refl, silent))

  after_bind-Built : Then (after_bind acceptor)
  unfolding Then after_bind
  after_bind-Built endpoint protocol l w fresh =
      then_open-Built endpoint protocol "listen" (after_listen acceptor) l
        (acceptor.listen l.endpoint w) fresh (λ w'. after_listen-Built endpoint protocol l w' fresh)

  after_reuse-Built : Then (after_reuse acceptor)
  unfolding Then after_reuse
  after_reuse-Built endpoint protocol l w fresh =
      then_open-Built endpoint protocol "bind" (after_bind acceptor) l (acceptor.bind l.endpoint w)
        fresh (λ w'. after_bind-Built endpoint protocol l w' fresh)

  after_open-Built : Then (after_open acceptor)
  unfolding Then after_open
  after_open-Built endpoint protocol l w fresh =
      then_open-Built endpoint protocol "reuse" (after_reuse acceptor) l
        (acceptor.set_reuse_address l.endpoint w) fresh
        (λ w'. after_reuse-Built endpoint protocol l w' fresh)

  initial-Fresh :
      (endpoint : Endpoint) (doc_root : Bytes) (timeout body_limit protocol : ℕ)
      → Fresh endpoint protocol (initial endpoint doc_root timeout body_limit protocol)
  unfolding Fresh
  initial-Fresh endpoint doc_root timeout body_limit protocol = (refl, refl, refl, refl, refl, refl)

  -- A constructed Listener has the endpoint and the protocols it was given, accepts nothing yet and has
  -- made no session. It is good and no error was reported, or it is not good and exactly one error was.
  pub construct-Built :
      (endpoint : Endpoint) (doc_root : Bytes) (timeout body_limit protocol : ℕ) (w : W)
      → Built endpoint protocol
          (construct acceptor endpoint doc_root timeout body_limit protocol w).0
  unfolding construct Then
  construct-Built endpoint doc_root timeout body_limit protocol w =
      let l = initial endpoint doc_root timeout body_limit protocol in
      let fresh = initial-Fresh endpoint doc_root timeout body_limit protocol in
      then_open-Built endpoint protocol "open" (after_open acceptor) l
        (acceptor.open_socket endpoint w) fresh
        (λ w'. after_open-Built endpoint protocol l w' fresh)
