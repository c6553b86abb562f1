-- ===== src/TestService/Start/Clients.antt =====
-- The clients that TestService (test/test_service.cpp) starts.
use boost_web.Common.{
  ℕ, zero, suc, ◌≡◌, refl, sym, ap, ◌∙◌, Bool, true, false, List, [], ◌∷◌, ◌++◌, none, some, codes,
  append-nil, append_assoc,
}
use boost_web.Manager.{System, Client, Impl, returned, client_of, connect, create_client}
use boost_web.Manager.Init.{init, prepare, set_up, load_authority, start_threads}
use boost_web.Manager.Lifecycle.{kept, manager_init, manager_create_client}
use boost_web.TestService.Start.{TestOptions, create_one, create_clients, with_clients, start}

abbrev pub test_client : Bool → Client
test_client ssl = record {
  ssl = ssl;
  host = codes "127.0.0.1";
  port = codes "12345";
  target = codes "/";
  identity = 66666;
  timeout = 30;
}

abbrev pub copies : {A : Type 0} → ℕ → A → List A
copies zero x = []
copies (suc n) x = x ∷ copies n x

module _ {W : Type 0} where
  create_clients-copies :
      (n : ℕ) (ssl : Bool) (k : Impl W)
      → create_clients n ssl (some k)
        ≡ some (record k { clients = k.clients ++ copies n (test_client ssl) })
  unfolding create_clients create_one manager_create_client create_client client_of connect
  create_clients-copies zero ssl k =
      ap (λ cs. some (record k { clients = cs })) (sym (append-nil k.clients))
  create_clients-copies (suc n) ssl k =
      let one = record k { clients = k.clients ++ test_client ssl ∷ [] } in
      create_clients-copies n ssl one
      ∙ ap (λ cs. some (record k { clients = cs }))
          (append_assoc k.clients (test_client ssl ∷ []) (copies n (test_client ssl)))

module _ {W : Type 0} (sys : System W) where
  -- An implementation that serves nobody, with one thread
  abbrev running : W → Impl W
  running w = record {
    io_contexts = 1;
    signal_sets = 1;
    alive_works = 1;
    stopped = false;
    threads = 1;
    has_service = true;
    web_ports = [];
    listeners = [];
    clients = [];
    reports = [];
    world = w;
  }

  -- TestService::init as a client, with no implementation yet: it returns true with one that has
  -- max_connect_count clients, each for the server of this program, over TLS as the option says,
  -- no Listener, one thread and no error reported.
  pub starts_clients :
      (o : TestOptions) (w : W)
      → o.is_server ≡ false
      → (k : Impl W) × (start sys o w none ≡ returned true (some k))
        × (k.clients ≡ copies o.max_connect_count (test_client o.ssl))
        × (k.listeners ≡ [])
        × (k.threads ≡ 1)
        × (k.reports ≡ [])
  unfolding start with_clients manager_init kept init prepare set_up load_authority start_threads
  starts_clients o w client = rw (client) (
    record (running w) { clients = copies o.max_connect_count (test_client o.ssl) },
    ap (returned true) (create_clients-copies o.max_connect_count o.ssl (running w)),
    refl,
    refl,
    refl,
    refl,
  )
