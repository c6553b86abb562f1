-- ===== src/Examples/Manager.antt =====
-- Servers that start (src/web_manager_impl.cpp, src/listener.cpp).
use boost_web.Common.{
  inl, ◌-◌, ℕ, ◌≡◌, refl, true, false, [], ◌∷◌, none, some, codes, ◌==◌, if◌then◌else◌, arith,
}
use boost_web.Address.{default}
use boost_web.Errors.{ErrorCode, success, other_error, own}
use boost_web.Protocol.{protocol_all, protocol_ssl}
use boost_web.DetectSession.{DetectSession, reported, on_detect}
use boost_web.Listener.Accepting.{After, running, ended, Accepts, always_accepting}
use boost_web.Listener.{
  run, on_accept, then_open, after_open, after_reuse, after_bind, after_listen, Listener, Endpoint,
  Acceptor, construct,
}
use boost_web.Listener.Construct.{Built, construct-Built}
use boost_web.Manager.{ServiceNode, null, Arguments, System, Impl, returned, loaded, new}
use boost_web.Manager.Lifecycle.{manager_init}
use boost_web.Manager.Lifecycle.Contexts.{Sound, left_by, initialised, constructed, Called-Sound}
use boost_web.Manager.Init.{init}
use boost_web.Manager.Init.Started.{
  OneStarted, AllStarted, unsupported_of, server, any_valid_started, all_valid_started,
}
use boost_web.Manager.Init.NoTls.{without_certificate_no_tls}

-- A system on which port 80 is taken.
abbrev taken : Endpoint → ErrorCode
taken endpoint = if endpoint.port == 80 then other_error 98 else success

abbrev acceptor : Acceptor ℕ
acceptor = record {
  open_socket = λ endpoint w. (success, w);
  set_reuse_address = λ endpoint w. (success, w);
  bind = λ endpoint w. (taken endpoint, w);
  listen = λ endpoint w. (success, w);
}

abbrev pub system : System ℕ
system = record {
  acceptor = acceptor;
  make_address = λ host. some host;
  load_verify_file = λ file w. (loaded, w);
  add_certificate_authority = λ buffer w. (loaded, w);
  use_certificate_chain_file = λ file w. (loaded, w);
  use_private_key_file = λ file w. (loaded, w);
  use_certificate_chain = λ buffer w. (loaded, w);
  use_private_key = λ buffer w. (loaded, w);
}

abbrev at_80 : ServiceNode
at_80 = record {
  host = codes "0.0.0.0";
  port = 80;
  root = codes "/srv";
  protocol = protocol_all;
  timeout = 30;
  body_limit = 0;
}

abbrev at_8080 : ServiceNode
at_8080 = record at_80 { port = 8080 }

abbrev arguments : Arguments
arguments = record {
  web_service = true;
  services = null 0;
  service_any_valid = false;
  pass_file_not_buffer = false;
  crt_file_or_buffer = none;
  key_file_or_buffer = none;
  thread_count = 4;
}

construct-Built_example :
    Built
      (record { ip = codes "0.0.0.0"; port = 80 })
      protocol_all
      (construct acceptor
        (record { ip = codes "0.0.0.0"; port = 80 })
        (codes "/srv")
        30
        0
        protocol_all
        0).0
construct-Built_example =
    construct-Built acceptor (record { ip = codes "0.0.0.0"; port = 80 }) (codes "/srv") 30 0
      protocol_all 0

any_valid_started_example :
    OneStarted protocol_ssl
      (at_80 ∷ at_8080 ∷ [])
      4
      (init system (server arguments at_80 (at_8080 ∷ []) true) (new 0))
unfolding unsupported_of
any_valid_started_example = any_valid_started system arguments at_80 (at_8080 ∷ []) 0

all_valid_started_example :
    AllStarted protocol_ssl
      (at_8080 ∷ [])
      4
      (init system (server arguments at_8080 [] false) (new 0))
unfolding unsupported_of
all_valid_started_example = all_valid_started system arguments at_8080 [] 0

abbrev plain_only : Listener
plain_only = record {
  endpoint = record { ip = codes "0.0.0.0"; port = 8080 };
  doc_root = codes "/srv";
  timeout = 30;
  body_limit = 0;
  protocol = 5;
  good = true;
  accepting = 1;
  sessions = [];
  reports = [];
}

abbrev plain_server : Impl ℕ
plain_server = record {
  io_contexts = 1;
  signal_sets = 1;
  alive_works = 1;
  stopped = false;
  threads = 4;
  has_service = true;
  web_ports = 8080 ∷ [];
  listeners = plain_only ∷ [];
  clients = [];
  reports = [];
  world = 0;
}

plain_server_starts :
    init system (server arguments at_8080 [] false) (new 0) ≡ returned true plain_server
unfolding init
plain_server_starts = refl

abbrev accepted_there : DetectSession
accepted_there = record { address = default; timeout = 30; body_limit = 0; protocol = 5 }

without_certificate_no_tls_example :
    on_detect success true accepted_there
    ≡ reported (own "detector" "detect" "not support ssl protocol")
without_certificate_no_tls_example =
    without_certificate_no_tls system arguments at_8080 [] false 0 plain_server [] [] plain_only
      accepted_there (inl refl) (omega arith, tt) plain_server_starts refl refl

Called-Sound_example :
    Sound system (left_by system (manager_init system (server arguments at_8080 [] false) 0 none))
Called-Sound_example =
    Called-Sound system
      (left_by system (manager_init system (server arguments at_8080 [] false) 0 none))
      (initialised (server arguments at_8080 [] false) 0 constructed)

abbrev at_port : Listener
at_port =
    run
      (construct acceptor (record { ip = codes "0.0.0.0"; port = 8080 }) (codes "/srv") 30 0
        protocol_all 0).0

at_port-After : After acceptor 0 at_port
unfolding construct then_open after_open after_reuse after_bind after_listen
at_port-After =
    running (record { ip = codes "0.0.0.0"; port = 8080 }) (codes "/srv") 30 0 protocol_all 0 refl

abbrev after_error : Listener
after_error =
    on_accept (other_error 24) default (record at_port { accepting = at_port.accepting - 1 })

always_accepting_example : Accepts 1 after_error
always_accepting_example =
    always_accepting acceptor 1 after_error (ended (other_error 24) default at_port-After)
