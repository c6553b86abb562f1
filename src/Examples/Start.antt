-- ===== src/Examples/Start.antt =====
-- The programs start (echo/echo_service.cpp, test/test_service.cpp).
use boost_web.Common.{suc, List, ℕ, ◌≡◌, refl, Bool, true, false, [], ◌∷◌, none, some, codes}
use boost_web.Address.{default}
use boost_web.Errors.{success}
use boost_web.DetectSession.{DetectSession, on_detect, plain}
use boost_web.Handover.{make_http_session}
use boost_web.HttpSession
use boost_web.HttpSession.{Handler, Session, on_recv, new}
use boost_web.HttpSession.Events.{here, more, read}
use boost_web.Listener.{Listener}
use boost_web.Manager.{Impl, returned}
use boost_web.Manager.Init
use boost_web.Manager.Lifecycle
use boost_web.Manager.Lifecycle.{manager_init}
use boost_web.Echo.Start
use boost_web.Echo.Start.{never_asked}
use boost_web.TestService.Start.{TestOptions}
use boost_web.TestService.Start as TestStart
use boost_web.TestService.Start.Clients.{copies, test_client, starts_clients}
use boost_web.Examples.Manager.{system}

abbrev two_clients : TestOptions
two_clients = record { is_server = false; ssl = true; max_connect_count = 2 }

starts_clients_example :
    (k : Impl ℕ) × (TestStart.start system two_clients 0 none ≡ returned true (some k))
    × (k.clients ≡ copies 2 (test_client true))
    × (k.listeners ≡ [])
    × (k.threads ≡ 1)
    × (k.reports ≡ [])
starts_clients_example = starts_clients system two_clients 0 refl

-- A request is whether it asks for an upgrade.
abbrev requests : Handler ℕ
requests = record {
  Request = Bool;
  Response = Bool;
  is_upgrade = λ req. req;
  keep_alive = λ res. true;
  handle_request = λ count address req. (true, suc count);
}

abbrev websockets_only : Listener
websockets_only = record {
  endpoint = record { ip = codes "0.0.0.0"; port = 12345 };
  doc_root = codes "/";
  timeout = 15;
  body_limit = 0;
  protocol = 4;
  good = true;
  accepting = 1;
  sessions = [];
  reports = [];
}

abbrev echo_server : Impl ℕ
echo_server = record {
  io_contexts = 1;
  signal_sets = 1;
  alive_works = 1;
  stopped = false;
  threads = 1;
  has_service = true;
  web_ports = 12345 ∷ [];
  listeners = websockets_only ∷ [];
  clients = [];
  reports = [];
  world = 0;
}

echo_starts : Start.start system 0 none ≡ returned true (some echo_server)
unfolding Start.start manager_init Lifecycle.kept Init.init
echo_starts = refl

abbrev plain_client : DetectSession
plain_client = record { address = default; timeout = 15; body_limit = 0; protocol = 4 }

abbrev run_session : Session requests
run_session = HttpSession.run requests (new requests default 15 0 4 plain 0)

detected : make_http_session requests 0 (on_detect success false plain_client) ≡ some run_session
unfolding make_http_session on_detect
detected = refl

abbrev no_more : List Listener
no_more = []

-- A request that asks for no upgrade
abbrev asked : Session requests
asked = on_recv requests success false (record run_session { reading = false })

reads : run_session.reading ≡ true
unfolding HttpSession.run HttpSession.recv
reads = refl

never_asked_example : (no_more ≡ []) × (asked.handled ≡ []) × (asked.world ≡ 0)
never_asked_example =
    never_asked system 0 echo_server requests 0 websockets_only no_more false plain_client
      run_session asked echo_starts refl refl detected (more here (read false reads))
