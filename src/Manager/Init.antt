-- ===== src/Manager/Init.antt =====
-- WebManagerImpl::init (src/web_manager_impl.cpp).
pub mod Attempt
pub mod AnyValid
pub mod AllValid
pub mod Started
pub mod Alive
pub mod NoTls
use boost_web.Common.{
  ℕ, ◌+◌, max, Bool, true, false, ◌==◌, if◌then◌else◌, List, [], ◌∷◌, ◌++◌, Option, none, some,
  Bytes,
}
use boost_web.Errors.{of_code, own}
use boost_web.Protocol.{protocol_ssl}
use boost_web.Listener.{Listener, Endpoint, construct, run}
use boost_web.Manager.{
  ServiceNode, Load, loaded, error_code, exception, System, Services, null, nodes, service_count,
  Arguments, Impl, Answer, returned, threw, supported, report,
}

module _ {W : Type 0} (sys : System W) where
  -- The Listener has run; it is kept alive by its async_accept.
  unfoldable pub started : Impl W → Listener × W → Answer (Impl W)
  started k (l, w) = returned l.good (record k {
    listeners = if l.good then k.listeners ++ l ∷ [] else k.listeners;
    reports = l.reports ++ k.reports;
    world = w;
  })

  unfoldable pub listen_at : ServiceNode → ℕ → Impl W → Option Bytes → Answer (Impl W)
  unfolding started construct run
  listen_at node protocol k none = threw k
  listen_at node protocol k (some ip) =
      let (l, w) =
        construct sys.acceptor (record { ip = ip; port = node.port }) node.root node.timeout
          node.body_limit protocol k.world in
      started k (run l, w)

  -- What both loops do with a node.
  unfoldable pub attempt : ℕ → ServiceNode → Impl W → Answer (Impl W)
  unfolding listen_at report
  attempt unsupported node k =
      if supported unsupported node == 0
      then returned false (report (own "init" "protocol" "no support protocol") k)
      else listen_at node (supported unsupported node) k (sys.make_address node.host)

  -- `while (index < service_count)`, which any node ends that listens
  unfoldable pub any_valid : ℕ → List ServiceNode → Impl W → Answer (Impl W)
  unfolding attempt
  any_valid unsupported [] k = returned false k
  any_valid unsupported (node ∷ rest) k = elim (attempt unsupported node k) [
    | returned true k' ↦ returned true (record k' { web_ports = k'.web_ports ++ node.port ∷ [] })
    | returned false k' ↦ any_valid unsupported rest k'
    | threw k' ↦ threw k'
  ]

  -- The loop over all nodes, with `service_node_ports`
  unfoldable pub all_valid : ℕ → List ServiceNode → List ℕ → Impl W → Answer (Impl W)
  unfolding attempt
  all_valid unsupported [] ports k = returned true (record k { web_ports = ports })
  all_valid unsupported (node ∷ rest) ports k = elim (attempt unsupported node k) [
    | returned true k' ↦ all_valid unsupported rest (ports ++ node.port ∷ []) k'
    | returned false k' ↦ returned false k'
    | threw k' ↦ threw k'
  ]

  -- The `catch` clauses
  unfoldable pub load_result : Impl W → Load × W → Answer (Impl W)
  unfolding report
  load_result k (loaded, w) = returned true (record k { world = w })
  load_result k (error_code ec, w) =
      returned false (report (of_code "ssl" "file" ec) (record k { world = w }))
  load_result k (exception what, w) =
      returned false (report (own "ssl" "file" what) (record k { world = w }))

  unfoldable pub load_authority : Arguments → Impl W → Answer (Impl W)
  unfolding load_result
  load_authority args k = elim args.crt_file_or_buffer [
    | none ↦ returned true k
    | some crt ↦ load_result k (
        if args.pass_file_not_buffer
        then sys.load_verify_file crt k.world
        else sys.add_certificate_authority crt k.world)
  ]

  -- The private key, once the certificate is loaded
  load_key : Arguments → Bytes → Load × W → Load × W
  load_key args key (loaded, w) =
      if args.pass_file_not_buffer
      then sys.use_private_key_file key w
      else sys.use_private_key key w
  load_key args key (error_code ec, w) = (error_code ec, w)
  load_key args key (exception what, w) = (exception what, w)

  unfoldable pub load_certificate : Arguments → Bytes → Bytes → Impl W → Answer (Impl W)
  unfolding load_result load_key
  load_certificate args crt key k = load_result k (
      load_key args key (
        if args.pass_file_not_buffer
        then sys.use_certificate_chain_file crt k.world
        else sys.use_certificate_chain crt k.world))

  unfoldable pub listen_all : Arguments → List ServiceNode → ℕ → Answer (Impl W) → Answer (Impl W)
  unfolding any_valid all_valid
  listen_all args ns unsupported (returned true k) =
      if args.service_any_valid then any_valid unsupported ns k else all_valid unsupported ns [] k
  listen_all args ns unsupported (returned false k) = returned false k
  listen_all args ns unsupported (threw k) = threw k

  unfoldable pub serve :
      Arguments → List ServiceNode → Option Bytes → Option Bytes → Impl W → Answer (Impl W)
  unfolding listen_all load_certificate
  serve args ns (some crt) (some key) k = listen_all args ns 0 (load_certificate args crt key k)
  serve args ns _ _ k = listen_all args ns protocol_ssl (returned true k)

  unfoldable pub set_up : Arguments → Services → Impl W → Answer (Impl W)
  unfolding load_authority serve
  set_up args (null n) k = load_authority args k
  set_up args (nodes []) k = load_authority args k
  set_up args (nodes (n ∷ ns)) k =
      serve args (n ∷ ns) args.crt_file_or_buffer args.key_file_or_buffer k

  -- The threads are started at the end.
  unfoldable pub start_threads : ℕ → Answer (Impl W) → Answer (Impl W)
  start_threads count (returned true k) = returned true (record k { threads = k.threads + count })
  start_threads count (returned false k) = returned false k
  start_threads count (threw k) = threw k

  unfoldable pub prepare : Impl W → Impl W
  prepare k = record k {
    has_service = true;
    io_contexts = k.io_contexts + 1;
    signal_sets = k.signal_sets + 1;
    alive_works = k.alive_works + 1;
    stopped = false;
    web_ports = [];
  }

  -- WebManagerImpl::init
  unfoldable pub init : Arguments → Impl W → Answer (Impl W)
  unfolding prepare set_up start_threads
  init args k =
      if args.web_service
      then start_threads (max (service_count args.services) args.thread_count)
          (set_up args args.services (prepare k))
      else returned false k
