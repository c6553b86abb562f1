-- ===== src/Manager/Init/Started.antt =====
-- What WebManagerImpl::init (src/web_manager_impl.cpp) has started when it returns, for a server.
use boost_web.Common.{
  subst, ℕ, ◌+◌, ◌≡◌, refl, sym, Bool, true, false, max, if◌then◌else◌, List, [], ◌∷◌, ◌++◌, length,
  Option, some, none, Bytes, arith,
}
use boost_web.Protocol.{protocol_ssl}
use boost_web.Listener.{Listener}
use boost_web.Manager.{
  ServiceNode, nodes, Arguments, System, Impl, Load, loaded, error_code, exception, Answer,
  returned, threw, new, report,
}
use boost_web.Manager.Init.{
  init, any_valid, all_valid, load_result, load_certificate, listen_all, serve, set_up,
  start_threads, prepare,
}
use boost_web.Manager.Init.Attempt.{Serves}
use boost_web.Manager.Init.AnyValid.{Any, any_valid-Any}
use boost_web.Manager.Init.AllValid.{ServesAll, ports_of, Every, all_valid-Every}

-- Without a certificate and its key, no protocol over TLS is supported.
unfoldable pub unsupported_of : Option Bytes → Option Bytes → ℕ
unsupported_of (some crt) (some key) = 0
unsupported_of _ _ = protocol_ssl

-- The arguments of a server with at least one node.
abbrev pub server : Arguments → ServiceNode → List ServiceNode → Bool → Arguments
server args node ns any = record args {
  web_service = true;
  services = nodes (node ∷ ns);
  service_any_valid = any;
}

module _ {W : Type 0} where
  -- One node is served, the ones before it reported one error each; or none is.
  unfoldable pub OneStarted : ℕ → List ServiceNode → ℕ → Answer (Impl W) → Type 0
  OneStarted unsupported ns count (returned true k) =
      (before : List ServiceNode) × (node : ServiceNode) × (after : List ServiceNode)
      × (l : Listener) × (ns ≡ before ++ node ∷ after)
      × Serves unsupported node l
      × (k.listeners ≡ l ∷ [])
      × (k.web_ports ≡ node.port ∷ [])
      × (length k.reports ≡ length before)
      × (k.threads ≡ count)
  OneStarted unsupported ns count (returned false k) =
      (k.listeners ≡ []) × (k.web_ports ≡ []) × (k.threads ≡ 0)
  OneStarted unsupported ns count (threw k) = (k.listeners ≡ []) × (k.threads ≡ 0)

  -- Each node is served, and no error was reported; or no thread runs, and no port is listed.
  unfoldable pub AllStarted : ℕ → List ServiceNode → ℕ → Answer (Impl W) → Type 0
  AllStarted unsupported ns count (returned true k) =
      ServesAll unsupported ns k.listeners
      × (k.web_ports ≡ ports_of ns)
      × (k.reports ≡ [])
      × (k.threads ≡ count)
  AllStarted unsupported ns count (returned false k) =
      (k.web_ports ≡ []) × (length k.reports ≡ 1) × (k.threads ≡ 0)
  AllStarted unsupported ns count (threw k) =
      (k.web_ports ≡ []) × (k.reports ≡ []) × (k.threads ≡ 0)

  -- init has begun, and the library has changed the world.
  abbrev begun : W → W → Impl W
  begun w w' = record {
    io_contexts = 0 + 1;
    signal_sets = 0 + 1;
    alive_works = 0 + 1;
    stopped = false;
    threads = 0;
    has_service = true;
    web_ports = [];
    listeners = [];
    clients = [];
    reports = [];
    world = w';
  }

module _ {W : Type 0} (sys : System W) where
  -- The loop of the mode
  listen : Arguments → List ServiceNode → ℕ → Impl W → Answer (Impl W)
  listen args ns unsupported k =
      if args.service_any_valid
      then any_valid sys unsupported ns k
      else all_valid sys unsupported ns [] k

  -- A certificate that is not loaded is one error, and nothing else happens.
  Refused : Impl W → Impl W → Type 0
  Refused k k' =
      (k'.listeners ≡ k.listeners)
      × (k'.web_ports ≡ k.web_ports)
      × (length k'.reports ≡ length k.reports + 1)
      × (k'.threads ≡ k.threads)

  module _ (P : Answer (Impl W) → Type 0) (args : Arguments) (ns : List ServiceNode)
      (k : Impl W) where
    after_load :
        (unsupported : ℕ) (r : Load × W)
        → ((w : W) → P (listen args ns unsupported (record k { world = w })))
        → ((k' : Impl W) → Refused k k' → P (returned false k'))
        → P (listen_all sys args ns unsupported (load_result sys k r))
    unfolding load_result listen_all listen Refused report
    after_load unsupported (loaded, w) going refused = going w
    after_load unsupported (error_code ec, w) going refused =
        refused _ (refl, refl, omega arith, refl)
    after_load unsupported (exception what, w) going refused =
        refused _ (refl, refl, omega arith, refl)

    serve_cases :
        (crt key : Option Bytes)
        → ((w : W) → P (listen args ns (unsupported_of crt key) (record k { world = w })))
        → ((k' : Impl W) → Refused k k' → P (returned false k'))
        → P (serve sys args ns crt key k)
    unfolding serve load_certificate unsupported_of listen listen_all
    serve_cases (some crt) (some key) going refused = after_load 0 _ going refused
    serve_cases (some crt) none going refused = going k.world
    serve_cases none (some key) going refused = going k.world
    serve_cases none none going refused = going k.world

  one :
      (unsupported : ℕ) (ns : List ServiceNode) (count : ℕ) (w w' : W) (a : Answer (Impl W))
      → Any unsupported ns (begun w w') a
      → OneStarted unsupported ns count (start_threads sys count a)
  unfolding start_threads OneStarted Any
  one unsupported ns count w w' (returned true k) (before, node, after, l, p, s, ls, ps, n, ts) =
      (before, node, after, l, p, s, ls, ps, omega (arith, n), omega (arith, ts))
  one unsupported ns count w w' (returned false k) (ls, ps, n, ts) = (ls, ps, ts)
  one unsupported ns count w w' (threw k) t = t

  every :
      (unsupported : ℕ) (ns : List ServiceNode) (count : ℕ) (w w' : W) (a : Answer (Impl W))
      → Every unsupported ns [] (begun w w') a
      → AllStarted unsupported ns count (start_threads sys count a)
  unfolding start_threads AllStarted Every
  every unsupported ns count w w' (returned true k) (ls, ss, at, ps, rs, ts) =
      (subst (λ x. ServesAll unsupported ns x) (sym at) ss, ps, rs, omega (arith, ts))
  every unsupported ns count w w' (returned false k) t = t
  every unsupported ns count w w' (threw k) t = t

  -- init with service_any_valid, called with a service and at least one node, on a new implementation: if
  -- it returns true, exactly one Listener runs, for one of the nodes, the port of that node is the one
  -- that is listed, each node before it has reported one error, and as many threads run as the larger of
  -- the number of nodes and thread_count. If it returns false or throws, no Listener and no thread runs.
  pub any_valid_started :
      (args : Arguments) (node : ServiceNode) (ns : List ServiceNode) (w : W)
      → OneStarted
          (unsupported_of args.crt_file_or_buffer args.key_file_or_buffer)
          (node ∷ ns)
          (max (length (node ∷ ns)) args.thread_count)
          (init sys (server args node ns true) (new w))
  unfolding init set_up prepare listen start_threads OneStarted Refused
  any_valid_started args node ns w =
      let count = max (length (node ∷ ns)) args.thread_count in
      let unsupported = unsupported_of args.crt_file_or_buffer args.key_file_or_buffer in
      serve_cases (λ a. OneStarted unsupported (node ∷ ns) count (start_threads sys count a))
        (server args node ns true) (node ∷ ns) (begun w w) args.crt_file_or_buffer
        args.key_file_or_buffer
        (λ w'.
          one unsupported (node ∷ ns) count w w' _
            (any_valid-Any sys unsupported (node ∷ ns) (begun w w')))
        (λ k' (ls, ps, n, ts). (ls, ps, ts))

  -- init without service_any_valid, called with a service and at least one node, on a new implementation:
  -- if it returns true, a Listener runs for each node, in order, the ports of the nodes are listed, no
  -- error was reported, and as many threads run as the larger of the number of nodes and thread_count. If
  -- it returns false, exactly one error was reported, and if it throws, none; no port is listed then, and
  -- no thread runs.
  pub all_valid_started :
      (args : Arguments) (node : ServiceNode) (ns : List ServiceNode) (w : W)
      → AllStarted
          (unsupported_of args.crt_file_or_buffer args.key_file_or_buffer)
          (node ∷ ns)
          (max (length (node ∷ ns)) args.thread_count)
          (init sys (server args node ns false) (new w))
  unfolding init set_up prepare listen start_threads AllStarted Refused
  all_valid_started args node ns w =
      let count = max (length (node ∷ ns)) args.thread_count in
      let unsupported = unsupported_of args.crt_file_or_buffer args.key_file_or_buffer in
      serve_cases (λ a. AllStarted unsupported (node ∷ ns) count (start_threads sys count a))
        (server args node ns false) (node ∷ ns) (begun w w) args.crt_file_or_buffer
        args.key_file_or_buffer
        (λ w'.
          every unsupported (node ∷ ns) count w w' _
            (all_valid-Every sys unsupported (node ∷ ns) [] (begun w w')))
        (λ k' (ls, ps, n, ts). (ps, n, ts))
