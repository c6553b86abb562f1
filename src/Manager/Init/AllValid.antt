-- ===== src/Manager/Init/AllValid.antt =====
-- The loop of WebManagerImpl::init (src/web_manager_impl.cpp) that listens at all nodes.
use boost_web.Common.{
  ℕ, suc, ◌≡◌, refl, sym, ◌∙◌, ap, true, false, List, [], ◌∷◌, ◌++◌, length, append-nil,
  append_assoc,
}
use boost_web.Errors.{Report}
use boost_web.Listener.{Listener}
use boost_web.Manager.{ServiceNode, System, Impl, Answer, returned, threw}
use boost_web.Manager.Init.{attempt, all_valid}
use boost_web.Manager.Init.Attempt.{Serves, Attempted, attempt-Attempted}

-- A Listener for each node, in order.
pub data ServesAll (unsupported : ℕ) : List ServiceNode → List Listener → Type 0 where
  none : ServesAll unsupported [] []
  more :
      {node : ServiceNode} {l : Listener} {ns : List ServiceNode} {ls : List Listener}
      → Serves unsupported node l
      → ServesAll unsupported ns ls
      → ServesAll unsupported (node ∷ ns) (l ∷ ls)

unfoldable pub ports_of : List ServiceNode → List ℕ
ports_of [] = []
ports_of (node ∷ ns) = node.port ∷ ports_of ns

module _ {W : Type 0} where
  -- What the loop comes to that listens at all nodes.
  unfoldable pub Every : ℕ → List ServiceNode → List ℕ → Impl W → Answer (Impl W) → Type 0
  Every unsupported ns ports k (returned true k') =
      (ls : List Listener) × ServesAll unsupported ns ls
      × (k'.listeners ≡ k.listeners ++ ls)
      × (k'.web_ports ≡ ports ++ ports_of ns)
      × (k'.reports ≡ k.reports)
      × (k'.threads ≡ k.threads)
  Every unsupported ns ports k (returned false k') =
      (k'.web_ports ≡ k.web_ports)
      × (length k'.reports ≡ suc (length k.reports))
      × (k'.threads ≡ k.threads)
  Every unsupported ns ports k (threw k') =
      (k'.web_ports ≡ k.web_ports) × (k'.reports ≡ k.reports) × (k'.threads ≡ k.threads)

module _ {W : Type 0} (sys : System W) where
  goes_on :
      (unsupported : ℕ) (node : ServiceNode) (ns : List ServiceNode) (ports : List ℕ)
      (k k' : Impl W) (a : Answer (Impl W))
      → Attempted unsupported node k (returned true k')
      → Every unsupported ns (ports ++ node.port ∷ []) k' a
      → Every unsupported (node ∷ ns) ports k a
  unfolding Every Attempted ports_of
  goes_on unsupported node ns ports k k' (returned true k'') (l, s, at, rs, ps, ts)
        (ls, ss, ats, pss, rss, tss) =
      (
        l ∷ ls,
        more s ss,
        ats ∙ ap (λ x. x ++ ls) at ∙ append_assoc k.listeners (l ∷ []) ls,
        pss ∙ append_assoc ports (node.port ∷ []) (ports_of ns),
        rss ∙ rs,
        tss ∙ ts,
      )
  goes_on unsupported node ns ports k k' (returned false k'') (l, s, at, rs, ps, ts)
        (pss, rss, tss) =
      (pss ∙ ps, rss ∙ ap (λ (x : List Report). suc (length x)) rs, tss ∙ ts)
  goes_on unsupported node ns ports k k' (threw k'') (l, s, at, rs, ps, ts) (pss, rss, tss) =
      (pss ∙ ps, rss ∙ rs, tss ∙ ts)

  after_attempt :
      (unsupported : ℕ) (node : ServiceNode) (ns : List ServiceNode) (ports : List ℕ) (k : Impl W)
      (a : Answer (Impl W))
      → Attempted unsupported node k a
      → ((k' : Impl W)
          → Every unsupported ns
              (ports ++ node.port ∷ [])
              k'
              (all_valid sys unsupported ns (ports ++ node.port ∷ []) k'))
      → Every unsupported (node ∷ ns) ports k (elim a [
        | returned true k' ↦ all_valid sys unsupported ns (ports ++ node.port ∷ []) k'
        | returned false k' ↦ returned false k'
        | threw k' ↦ threw k'
      ])
  unfolding Every Attempted
  after_attempt unsupported node ns ports k (returned true k') t ih =
      goes_on unsupported node ns ports k k'
        (all_valid sys unsupported ns (ports ++ node.port ∷ []) k') t (ih k')
  after_attempt unsupported node ns ports k (returned false k') (ls, rs, ps, ts) ih = (ps, rs, ts)
  after_attempt unsupported node ns ports k (threw k') same ih = (
    ap (λ (x : Impl W). x.web_ports) same,
    ap (λ (x : Impl W). x.reports) same,
    ap (λ (x : Impl W). x.threads) same,
  )

  pub all_valid-Every :
      (unsupported : ℕ) (ns : List ServiceNode) (ports : List ℕ) (k : Impl W)
      → Every unsupported ns ports k (all_valid sys unsupported ns ports k)
  unfolding all_valid Every ports_of
  all_valid-Every unsupported [] ports k =
      ([], none, sym (append-nil k.listeners), sym (append-nil ports), refl, refl)
  all_valid-Every unsupported (node ∷ ns) ports k =
      after_attempt unsupported node ns ports k (attempt sys unsupported node k)
        (attempt-Attempted sys unsupported node k)
        (λ k'. all_valid-Every unsupported ns (ports ++ node.port ∷ []) k')
