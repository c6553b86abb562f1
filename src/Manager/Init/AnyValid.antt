-- ===== src/Manager/Init/AnyValid.antt =====
-- The loop of WebManagerImpl::init (src/web_manager_impl.cpp) that looks for one node to listen at.
use boost_web.Common.{◌+◌, ℕ, ◌≡◌, refl, ◌∙◌, ap, true, false, List, [], ◌∷◌, ◌++◌, length, arith}
use boost_web.Errors.{Report}
use boost_web.Listener.{Listener}
use boost_web.Manager.{ServiceNode, System, Impl, Answer, returned, threw}
use boost_web.Manager.Init.{attempt, any_valid}
use boost_web.Manager.Init.Attempt.{Serves, Attempted, attempt-Attempted}

module _ {W : Type 0} where
  -- What the loop comes to that looks for one node.
  unfoldable pub Any : ℕ → List ServiceNode → Impl W → Answer (Impl W) → Type 0
  Any unsupported ns k (returned true k') =
      (before : List ServiceNode) × (node : ServiceNode) × (after : List ServiceNode)
      × (l : Listener) × (ns ≡ before ++ node ∷ after)
      × Serves unsupported node l
      × (k'.listeners ≡ k.listeners ++ l ∷ [])
      × (k'.web_ports ≡ k.web_ports ++ node.port ∷ [])
      × (length k'.reports ≡ length before + length k.reports)
      × (k'.threads ≡ k.threads)
  Any unsupported ns k (returned false k') =
      (k'.listeners ≡ k.listeners)
      × (k'.web_ports ≡ k.web_ports)
      × (length k'.reports ≡ length ns + length k.reports)
      × (k'.threads ≡ k.threads)
  Any unsupported ns k (threw k') = (k'.listeners ≡ k.listeners) × (k'.threads ≡ k.threads)

module _ {W : Type 0} (sys : System W) where
  passed_over :
      (unsupported : ℕ) (node : ServiceNode) (ns : List ServiceNode) (k k' : Impl W)
      (a : Answer (Impl W))
      → Attempted unsupported node k (returned false k')
      → Any unsupported ns k' a
      → Any unsupported (node ∷ ns) k a
  unfolding Any Attempted
  passed_over unsupported node ns k k' (returned true k'') (same, one, ports, threads)
        (before, node', after, l, p, s, ls, ps, n, ts) =
      (
        node ∷ before,
        node',
        after,
        l,
        ap (λ x. node ∷ x) p,
        s,
        ls ∙ ap (λ x. x ++ l ∷ []) same,
        ps ∙ ap (λ x. x ++ node'.port ∷ []) ports,
        omega (arith, n, one),
        ts ∙ threads,
      )
  passed_over unsupported node ns k k' (returned false k'') (same, one, ports, threads)
        (ls, ps, n, ts) =
      (ls ∙ same, ps ∙ ports, omega (arith, n, one), ts ∙ threads)
  passed_over unsupported node ns k k' (threw k'') (same, one, ports, threads) (ls, ts) =
      (ls ∙ same, ts ∙ threads)

  after_attempt :
      (unsupported : ℕ) (node : ServiceNode) (ns : List ServiceNode) (k : Impl W)
      (a : Answer (Impl W))
      → Attempted unsupported node k a
      → ((k' : Impl W) → Any unsupported ns k' (any_valid sys unsupported ns k'))
      → Any unsupported (node ∷ ns) k (elim a [
        | returned true k' ↦
            returned true (record k' { web_ports = k'.web_ports ++ node.port ∷ [] })
        | returned false k' ↦ any_valid sys unsupported ns k'
        | threw k' ↦ threw k'
      ])
  unfolding Any Attempted
  after_attempt unsupported node ns k (returned true k') (l, s, ls, rs, ps, ts) ih = (
    [],
    node,
    ns,
    l,
    refl,
    s,
    ls,
    ap (λ x. x ++ node.port ∷ []) ps,
    omega (arith, ap (λ (x : List Report). length x) rs),
    ts,
  )
  after_attempt unsupported node ns k (returned false k') t ih =
      passed_over unsupported node ns k k' (any_valid sys unsupported ns k') t (ih k')
  after_attempt unsupported node ns k (threw k') same ih =
      (ap (λ (x : Impl W). x.listeners) same, ap (λ (x : Impl W). x.threads) same)

  pub any_valid-Any :
      (unsupported : ℕ) (ns : List ServiceNode) (k : Impl W)
      → Any unsupported ns k (any_valid sys unsupported ns k)
  unfolding any_valid Any
  any_valid-Any unsupported [] k = (refl, refl, omega arith, refl)
  any_valid-Any unsupported (node ∷ ns) k =
      after_attempt unsupported node ns k (attempt sys unsupported node k)
        (attempt-Attempted sys unsupported node k) (λ k'. any_valid-Any unsupported ns k')
