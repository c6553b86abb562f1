-- ===== src/Connector/Answers.antt =====
-- What the application hears of a client that it has asked for (src/websocket_connector_plain.cpp,
-- src/websocket_connector_ssl.cpp).
use boost_web.Common.{
  String, ◌-◌, ℕ, suc, ◌+◌, ◌≤◌, ◌≡◌, refl, ap, if_cases, List, [], ◌∷◌, ◌++◌, Option, none, some,
  ◌⊎◌, inl, inr, length, arith,
}
use boost_web.Address.{Address}
use boost_web.Errors.{ErrorCode, failed, Report}
use boost_web.DetectSession.{Transport, plain, ssl}
use boost_web.Connector.{
  Stage, resolve, connect, ssl_handshake, handshake, no_connection, connection, Connector, run,
  error, on_resolve, on_connect, on_ssl_handshake, on_handshake, connected, start_handshake,
  complete, After, running, ended,
}

-- How many operations a connector can still end, the outstanding one included.
unfoldable pub left : Option Stage → ℕ
left none = 0
left (some handshake) = 1
left (some ssl_handshake) = 2
left (some connect) = 3
left (some resolve) = 4

-- Nothing was heard yet, and an operation is outstanding.
abbrev pub Under : Connector → Type 0
Under c = (stage : Stage) × (c.outstanding ≡ some stage) × (c.answers ≡ []) × (c.reports ≡ [])

-- The one answer is a connection and there was no error, or it is nullptr and there was one error.
abbrev pub Answered : Connector → Type 0
Answered c =
    (c.outstanding ≡ none)
    × (((address : Address) × (c.answers ≡ connection address c.identity ∷ []) × (c.reports ≡ []))
        ⊎ ((c.answers ≡ no_connection c.identity ∷ []) × (length c.reports ≡ 1)))

abbrev pub Heard : Connector → Type 0
Heard c = Under c ⊎ Answered c

-- Of a connector after some operation has ended: what was heard, and how far it is.
Ends : ℕ → Connector → Type 0
Ends bound c = Heard c × (left c.outstanding ≤ bound)

module _ (c : Connector) (idle : c.outstanding ≡ none) (none_yet : c.answers ≡ [])
    (silent : c.reports ≡ []) where
  error-Ends : (bound : ℕ) (what : String) (ec : ErrorCode) → Ends bound (error what ec c)
  unfolding Ends error left
  error-Ends bound what ec = (
    inr (
      idle,
      inr (
        ap (λ l. l ++ no_connection c.identity ∷ []) none_yet,
        ap (λ (x : List Report). suc (length x)) silent,
      ),
    ),
    rw idle (omega arith),
  )

  connected-Ends : (transport : Transport) → Ends 2 (connected transport c)
  unfolding Ends connected start_handshake left
  connected-Ends plain = (inl (handshake, refl, none_yet, silent), omega arith)
  connected-Ends ssl = (inl (ssl_handshake, refl, none_yet, silent), omega arith)

  complete-Ends :
      (stage : Stage) (ec : ErrorCode) (address : Address) (bound : ℕ)
      → left (some stage) ≤ bound + 1
      → Ends bound (complete stage ec address c)
  unfolding complete on_resolve on_connect on_ssl_handshake on_handshake left Ends start_handshake
  complete-Ends resolve ec address bound l =
      if_cases (Ends bound) (failed ec) (error "resolve" ec c) _
        (λ _. error-Ends bound "resolve" ec)
        (λ _. (inl (connect, refl, none_yet, silent), omega arith))
  complete-Ends connect ec address bound l =
      if_cases (Ends bound) (failed ec) (error "connect" ec c) _
        (λ _. error-Ends bound "connect" ec)
        (λ _. let (heard, less) = connected-Ends c.transport in (heard, omega (arith, less)))
  complete-Ends ssl_handshake ec address bound l =
      if_cases (Ends bound) (failed ec) (error "ssl handshake" ec c) _
        (λ _. error-Ends bound "ssl handshake" ec)
        (λ _. (inl (handshake, refl, none_yet, silent), omega arith))
  complete-Ends handshake ec address bound l =
      if_cases (Ends bound) (failed ec) (error "handshake" ec c) _
        (λ _. error-Ends bound "handshake" ec)
        (λ _. (
          inr (
            idle,
            inl (address, ap (λ l. l ++ connection address c.identity ∷ []) none_yet, silent),
          ),
          rw idle (omega arith),
        ))

left-some : (stage : Stage) → 1 ≤ left (some stage)
unfolding left
left-some resolve = omega arith
left-some connect = omega arith
left-some ssl_handshake = omega arith
left-some handshake = omega arith

ended-Heard :
    (n : ℕ) (c : Connector) (stage : Stage) (ec : ErrorCode) (address : Address)
    → c.outstanding ≡ some stage
    → Heard c
    → n + left c.outstanding ≤ 4
    → let c' = complete stage ec address (record c { outstanding = none }) in
      Heard c' × (suc n + left c'.outstanding ≤ 4)
unfolding Ends
ended-Heard n c stage ec address e (inr (idle, _)) bound = cc
ended-Heard n c stage ec address e (inl (stage', e', none_yet, silent)) bound =
    let bound' : n + left (some stage) ≤ 4 = rw (← e) bound in
    let (heard, less) =
      complete-Ends (record c { outstanding = none }) refl none_yet silent stage ec address
        (4 - suc n) (omega (arith, bound', left-some stage)) in
    (heard, omega (arith, bound', less, left-some stage))

-- After any number of its operations have ended, in whatever way, either the next one is outstanding and
-- nothing was heard, or none is outstanding and the application has heard once: on_connect with a
-- connection and no error, or on_connect with nullptr and one error. No more than four operations end,
-- the outstanding one included.
pub answered_once : (n : ℕ) (c : Connector) → After n c → Heard c × (n + left c.outstanding ≤ 4)
unfolding run left
answered_once n c (running transport identity timeout host port target) =
    (inl (resolve, refl, refl, refl), omega arith)
answered_once _ _ (ended {n = n} {c = c} stage ec address r e) =
    let (heard, bound) = answered_once n c r in ended-Heard n c stage ec address e heard bound
