-- ===== src/Listener/Accepting.antt =====
-- A Listener (src/listener.cpp) goes on accepting, whatever an async_accept ends with.
use boost_web.Common.{
  ℕ, suc, ◌+◌, ◌-◌, ◌≡◌, refl, ap, true, inl, inr, List, [], ◌∷◌, ◌++◌, length, length-append, All,
  All-append, subst, sym, Bytes, arith, if_cases,
}
use boost_web.Address.{Address}
use boost_web.Errors.{ErrorCode, failed, Report, of_code}
use boost_web.DetectSession.{DetectSession}
use boost_web.Listener.{Listener, Endpoint, Acceptor, construct, run, accept, accepted, on_accept}
use boost_web.Listener.Construct.{construct-Built}

-- A good Listener that has run, after `n` of its async_accept have ended.
pub data After {W : Type 0} (acceptor : Acceptor W) : ℕ → Listener → Type 0 where
  running :
      (endpoint : Endpoint) (doc_root : Bytes) (timeout body_limit protocol : ℕ) (w : W)
      → (construct acceptor endpoint doc_root timeout body_limit protocol w).0.good ≡ true
      → After acceptor 0
          (run (construct acceptor endpoint doc_root timeout body_limit protocol w).0)
  ended :
      {n : ℕ} {l : Listener}
      → (ec : ErrorCode) (address : Address) → After acceptor n l
      → After acceptor (suc n) (on_accept ec address (record l { accepting = l.accepting - 1 }))

-- The session has the protocols `protocol`.
abbrev pub Of : ℕ → DetectSession → Type 0
Of protocol d = d.protocol ≡ protocol

abbrev pub Accepts : ℕ → Listener → Type 0
Accepts n l =
    (l.accepting ≡ 1) × (length l.sessions + length l.reports ≡ n) × All (Of l.protocol) l.sessions

run-Accepts :
    (l : Listener)
    → l.good ≡ true
    → l.accepting ≡ 0
    → l.sessions ≡ []
    → l.reports ≡ []
    → Accepts 0 (run l)
unfolding run accept
run-Accepts l good idle unused silent = rw good (
  omega (arith, idle),
  omega (
    arith,
    ap (λ (x : List DetectSession). length x) unused,
    ap (λ (x : List Report). length x) silent,
  ),
  subst (All (Of l.protocol)) (sym unused) tt,
)

on_accept-Accepts :
    (n : ℕ) (ec : ErrorCode) (address : Address) (l : Listener)
    → Accepts n l
    → Accepts (suc n) (on_accept ec address (record l { accepting = l.accepting - 1 }))
unfolding on_accept accepted accept
on_accept-Accepts n ec address l (one, count, all) =
    if_cases (λ l'. Accepts (suc n) (accept l')) (failed ec)
      (record l {
        accepting = l.accepting - 1;
        reports = of_code "listener" "accept" ec ∷ l.reports;
      })
      (record l { accepting = l.accepting - 1; sessions = l.sessions ++ made ∷ [] })
      (λ _. (omega (arith, one), omega (arith, count), all))
      (λ _. (
        omega (arith, one),
        omega (arith, count, length-append l.sessions (made ∷ [])),
        All-append (Of l.protocol) l.sessions (made ∷ []) all (refl, tt),
      ))
  where
    made : DetectSession
    made = record {
      address = address;
      timeout = l.timeout;
      body_limit = l.body_limit;
      protocol = l.protocol;
    }

-- Of a good Listener that has run, after any number of its async_accept have ended, whether in an error or
-- not, exactly one is outstanding, each that has ended has made one DetectSession or reported one
-- error, and each DetectSession has the protocols of the Listener.
pub always_accepting :
    {W : Type 0} (acceptor : Acceptor W) (n : ℕ) (l : Listener) → After acceptor n l → Accepts n l
always_accepting acceptor _ _ (running endpoint doc_root timeout body_limit protocol w good) =
    let l = (construct acceptor endpoint doc_root timeout body_limit protocol w).0 in
    let (_, _, idle, unused, end) =
      construct-Built acceptor endpoint doc_root timeout body_limit protocol w in
    elim end [ inl (_, silent) ↦ run-Accepts l good idle unused silent | inr (bad, _) ↦ cc ]
always_accepting acceptor _ _ (ended {n = n} {l = l} ec address r) =
    on_accept-Accepts n ec address l (always_accepting acceptor n l r)
