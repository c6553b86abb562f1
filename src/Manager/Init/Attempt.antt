-- ===== src/Manager/Init/Attempt.antt =====
-- One node of WebManagerImpl::init (src/web_manager_impl.cpp): its Listener, or an error.
use boost_web.Common.{
  ◌+◌, ℕ, suc, ◌≡◌, refl, ap, true, false, ◌==◌, if_cases, [], ◌∷◌, ◌++◌, length, Option, some,
  none, inl, inr, Bytes, arith, length-append,
}
use boost_web.Listener.{Listener, Endpoint, run, accept}
use boost_web.Listener.Construct.{Built, construct-Built}
use boost_web.Manager.{ServiceNode, System, Impl, Answer, returned, threw, supported, report}
use boost_web.Manager.Init.{started, listen_at, attempt}

-- The Listener runs for the node: it listens at its port, for its protocols that are supported, of which
-- there are some, and waits for a connection.
pub record Serves (unsupported : ℕ) (node : ServiceNode) (l : Listener) : Type 0 where
  pub at_port : l.endpoint.port ≡ node.port
  pub for_protocol : l.protocol ≡ supported unsupported node
  pub some_protocol : (supported unsupported node == 0) ≡ false
  pub waits : l.accepting ≡ 1

module _ {W : Type 0} where
  -- What an attempt to listen for a node comes to.
  unfoldable pub Attempted : ℕ → ServiceNode → Impl W → Answer (Impl W) → Type 0
  Attempted unsupported node k (returned true k') =
      (l : Listener) × Serves unsupported node l
      × (k'.listeners ≡ k.listeners ++ l ∷ [])
      × (k'.reports ≡ k.reports)
      × (k'.web_ports ≡ k.web_ports)
      × (k'.threads ≡ k.threads)
  Attempted unsupported node k (returned false k') =
      (k'.listeners ≡ k.listeners)
      × (length k'.reports ≡ suc (length k.reports))
      × (k'.web_ports ≡ k.web_ports)
      × (k'.threads ≡ k.threads)
  Attempted unsupported node k (threw k') = k' ≡ k

module _ {W : Type 0} (sys : System W) where
  started-Attempted :
      (unsupported : ℕ) (node : ServiceNode) (k : Impl W) (ip : Bytes) (l : Listener) (w : W)
      → (supported unsupported node == 0) ≡ false
      → Built (record { ip = ip; port = node.port }) (supported unsupported node) l
      → Attempted unsupported node k (started sys k (run l, w))
  unfolding Attempted started run accept
  started-Attempted unsupported node k ip l w some_protocol
        (at, for, idle, _, inl (good, reports)) =
      rw good (
        record l { good = true; accepting = l.accepting + 1 },
        record {
          at_port = ap (λ (e : Endpoint). e.port) at;
          for_protocol = for;
          some_protocol = some_protocol;
          waits = ap (λ n. n + 1) idle;
        },
        refl,
        ap (λ r. r ++ k.reports) reports,
        refl,
        refl,
      )
  started-Attempted unsupported node k ip l w some_protocol (at, for, idle, _, inr (bad, reports)) =
      rw bad (refl, omega (arith, length-append l.reports k.reports, reports), refl, refl)

  listen_at-Attempted :
      (unsupported : ℕ) (node : ServiceNode) (k : Impl W) (address : Option Bytes)
      → (supported unsupported node == 0) ≡ false
      → Attempted unsupported node k (listen_at sys node (supported unsupported node) k address)
  unfolding listen_at Attempted
  listen_at-Attempted unsupported node k none some_protocol = refl
  listen_at-Attempted unsupported node k (some ip) some_protocol =
      started-Attempted unsupported node k ip _ _ some_protocol
        (construct-Built sys.acceptor _ _ _ _ _ _)

  pub attempt-Attempted :
      (unsupported : ℕ) (node : ServiceNode) (k : Impl W)
      → Attempted unsupported node k (attempt sys unsupported node k)
  unfolding attempt Attempted report
  attempt-Attempted unsupported node k =
      if_cases (Attempted unsupported node k) (supported unsupported node == 0) _ _
        (λ _. (refl, refl, refl, refl))
        (λ some_protocol. listen_at-Attempted unsupported node k _ some_protocol)
