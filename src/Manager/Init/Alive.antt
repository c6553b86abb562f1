-- ===== src/Manager/Init/Alive.antt =====
-- WebManagerImpl::init (src/web_manager_impl.cpp) makes one io_context, however it ends.
use boost_web.Common.{
  ℕ, ◌≡◌, refl, true, false, ◌==◌, if_cases, List, [], ◌∷◌, ◌++◌, Option, none, some, Bytes, max,
  if◌then◌else◌,
}
use boost_web.Protocol.{protocol_ssl}
use boost_web.Manager.{
  ServiceNode, Load, loaded, error_code, exception, Services, null, nodes, System, Arguments, Impl,
  Answer, returned, threw, supported, report, new, service_count,
}
use boost_web.Manager.Init.{
  started, listen_at, attempt, any_valid, all_valid, load_result, load_authority, load_certificate,
  listen_all, serve, set_up, start_threads, prepare, init,
}

module _ {W : Type 0} where
  -- The implementation has its one io_context, with one set of signals that it waits for, and a service.
  abbrev pub Alive : Impl W → Type 0
  Alive k = (k.io_contexts ≡ 1) × (k.has_service ≡ true) × (k.signal_sets ≡ 1)

  -- Whichever way the call has ended
  abbrev pub Leaves : Answer (Impl W) → Type 0
  Leaves (returned b k) = Alive k
  Leaves (threw k) = Alive k

module _ {W : Type 0} (sys : System W) where
  attempt-Alive :
      (unsupported : ℕ) (node : ServiceNode) (k : Impl W)
      → Alive k
      → Leaves (attempt sys unsupported node k)
  unfolding attempt report listen_at started
  attempt-Alive unsupported node k v =
      if_cases Leaves (supported unsupported node == 0) _
        (listen_at sys node (supported unsupported node) k (sys.make_address node.host)) (λ _. v)
        (λ _. listens (sys.make_address node.host))
    where
      listens :
          (address : Option Bytes)
          → Leaves (listen_at sys node (supported unsupported node) k address)
      listens none = v
      listens (some ip) = v

  after_any :
      (unsupported : ℕ) (node : ServiceNode) (ns : List ServiceNode) (a : Answer (Impl W))
      → Leaves a
      → ((k : Impl W) → Alive k → Leaves (any_valid sys unsupported ns k))
      → Leaves (elim a [
        | returned true k' ↦
            returned true (record k' { web_ports = k'.web_ports ++ node.port ∷ [] })
        | returned false k' ↦ any_valid sys unsupported ns k'
        | threw k' ↦ threw k'
      ])
  after_any unsupported node ns (returned true k) v ih = v
  after_any unsupported node ns (returned false k) v ih = ih k v
  after_any unsupported node ns (threw k) v ih = v

  any_valid-Alive :
      (unsupported : ℕ) (ns : List ServiceNode) (k : Impl W)
      → Alive k
      → Leaves (any_valid sys unsupported ns k)
  unfolding any_valid
  any_valid-Alive unsupported [] k v = v
  any_valid-Alive unsupported (node ∷ ns) k v =
      after_any unsupported node ns (attempt sys unsupported node k)
        (attempt-Alive unsupported node k v) (λ k' v'. any_valid-Alive unsupported ns k' v')

  after_all :
      (unsupported : ℕ) (ns : List ServiceNode) (ports : List ℕ) (a : Answer (Impl W))
      → Leaves a
      → ((k : Impl W) → Alive k → Leaves (all_valid sys unsupported ns ports k))
      → Leaves (elim a [
        | returned true k' ↦ all_valid sys unsupported ns ports k'
        | returned false k' ↦ returned false k'
        | threw k' ↦ threw k'
      ])
  after_all unsupported ns ports (returned true k) v ih = ih k v
  after_all unsupported ns ports (returned false k) v ih = v
  after_all unsupported ns ports (threw k) v ih = v

  all_valid-Alive :
      (unsupported : ℕ) (ns : List ServiceNode) (ports : List ℕ) (k : Impl W)
      → Alive k
      → Leaves (all_valid sys unsupported ns ports k)
  unfolding all_valid
  all_valid-Alive unsupported [] ports k v = v
  all_valid-Alive unsupported (node ∷ ns) ports k v =
      after_all unsupported ns (ports ++ node.port ∷ []) (attempt sys unsupported node k)
        (attempt-Alive unsupported node k v)
        (λ k' v'. all_valid-Alive unsupported ns (ports ++ node.port ∷ []) k' v')

  load_result-Alive : (k : Impl W) (r : Load × W) → Alive k → Leaves (load_result sys k r)
  unfolding load_result report
  load_result-Alive k (loaded, w) v = v
  load_result-Alive k (error_code ec, w) v = v
  load_result-Alive k (exception what, w) v = v

  listen_all-Alive :
      (args : Arguments) (ns : List ServiceNode) (unsupported : ℕ) (a : Answer (Impl W))
      → Leaves a
      → Leaves (listen_all sys args ns unsupported a)
  unfolding listen_all
  listen_all-Alive args ns unsupported (returned true k) v =
      if_cases Leaves args.service_any_valid (any_valid sys unsupported ns k)
        (all_valid sys unsupported ns [] k) (λ _. any_valid-Alive unsupported ns k v)
        (λ _. all_valid-Alive unsupported ns [] k v)
  listen_all-Alive args ns unsupported (returned false k) v = v
  listen_all-Alive args ns unsupported (threw k) v = v

  load_authority-Alive :
      (args : Arguments) (k : Impl W) → Alive k → Leaves (load_authority sys args k)
  unfolding load_authority
  load_authority-Alive args k v = loads args.crt_file_or_buffer
    where
      loads :
          (crt : Option Bytes)
          → Leaves (elim crt [
            | none ↦ returned true k
            | some crt ↦ load_result sys k (
                if args.pass_file_not_buffer
                then sys.load_verify_file crt k.world
                else sys.add_certificate_authority crt k.world)
          ])
      loads none = v
      loads (some crt) = load_result-Alive k _ v

  serve-Alive :
      (args : Arguments) (ns : List ServiceNode) (crt key : Option Bytes) (k : Impl W)
      → Alive k
      → Leaves (serve sys args ns crt key k)
  unfolding serve load_certificate
  serve-Alive args ns (some crt) (some key) k v =
      listen_all-Alive args ns 0 _ (load_result-Alive k _ v)
  serve-Alive args ns (some crt) none k v =
      listen_all-Alive args ns protocol_ssl (returned true k) v
  serve-Alive args ns none (some key) k v =
      listen_all-Alive args ns protocol_ssl (returned true k) v
  serve-Alive args ns none none k v = listen_all-Alive args ns protocol_ssl (returned true k) v

  set_up-Alive :
      (args : Arguments) (services : Services) (k : Impl W)
      → Alive k
      → Leaves (set_up sys args services k)
  unfolding set_up
  set_up-Alive args (null n) k v = load_authority-Alive args k v
  set_up-Alive args (nodes []) k v = load_authority-Alive args k v
  set_up-Alive args (nodes (n ∷ ns)) k v =
      serve-Alive args (n ∷ ns) args.crt_file_or_buffer args.key_file_or_buffer k v

  start_threads-Alive :
      (count : ℕ) (a : Answer (Impl W)) → Leaves a → Leaves (start_threads sys count a)
  unfolding start_threads
  start_threads-Alive count (returned true k) v = v
  start_threads-Alive count (returned false k) v = v
  start_threads-Alive count (threw k) v = v

  pub init-Alive :
      (args : Arguments) (w : W) → args.web_service ≡ true → Leaves (init sys args (new w))
  unfolding init prepare
  init-Alive args w given = rw given (
      start_threads-Alive (max (service_count args.services) args.thread_count) _
        (set_up-Alive args args.services (prepare sys (new w)) (refl, refl, refl)))
