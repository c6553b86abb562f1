-- ===== src/TestService/Start.antt =====
-- test/test_service.cpp: init and exit of TestService, which start a server or clients by WebManager.
pub mod Clients
use boost_web.Common.{
  ℕ, zero, suc, Bool, true, false, List, [], ◌∷◌, ◌++◌, Option, none, some, Bytes, codes,
  if◌then◌else◌,
}
use boost_web.Protocol.{protocol_all}
use boost_web.Manager.{
  ServiceNode, System, Services, null, nodes, Arguments, Client, Impl, Answer, returned, threw,
}
use boost_web.Manager.Lifecycle.{manager_init, manager_exit, manager_create_client}

-- The members that init uses
pub record TestOptions : Type 0 where
  pub is_server : Bool
  pub ssl : Bool
  pub max_connect_count : ℕ  -- std::size_t

abbrev pub server_node : ServiceNode
server_node = record {
  host = codes "0.0.0.0";
  port = 12345;
  root = codes "./";
  protocol = protocol_all;
  timeout = 15;
  body_limit = 0;
}

abbrev pub server_arguments : Arguments
server_arguments = record {
  web_service = true;
  services = nodes (server_node ∷ []);
  service_any_valid = false;
  pass_file_not_buffer = true;
  crt_file_or_buffer = some (codes "test.crt");
  key_file_or_buffer = some (codes "test.key");
  thread_count = 1;
}

abbrev pub client_arguments : Arguments
client_arguments = record {
  web_service = true;
  services = null 0;
  service_any_valid = false;
  pass_file_not_buffer = true;
  crt_file_or_buffer = none;
  key_file_or_buffer = none;
  thread_count = 1;
}

module _ {W : Type 0} where
  -- One round of the loop: a connector for the server of this program
  unfoldable pub create_one : Bool → Option (Impl W) → Bool × Option (Impl W)
  unfolding manager_create_client
  create_one ssl m =
      manager_create_client ssl (some (codes "127.0.0.1")) (some (codes "12345")) (some (codes "/"))
        66666 30 m

  -- The loop, which a client that is not created ends
  unfoldable pub create_clients : ℕ → Bool → Option (Impl W) → Option (Impl W)
  unfolding create_one
  create_clients zero ssl m = m
  create_clients (suc n) ssl m =
      let (created, m') = create_one ssl m in
      let later = create_clients n ssl m' in if created then later else m'

  unfoldable pub with_clients : TestOptions → Answer (Option (Impl W)) → Answer (Option (Impl W))
  unfolding create_clients
  with_clients o (returned true m) = returned true (create_clients o.max_connect_count o.ssl m)
  with_clients o (returned false m) = returned false m
  with_clients o (threw m) = threw m

module _ {W : Type 0} (sys : System W) where
  -- TestService::init
  unfoldable pub start : TestOptions → W → Option (Impl W) → Answer (Option (Impl W))
  unfolding with_clients
  start o w m =
      if o.is_server
      then manager_init sys server_arguments w m
      else with_clients o (manager_init sys client_arguments w m)

-- TestService::exit
unfoldable pub stop : {W : Type 0} → Option (Impl W) → Option (Impl W) × Option (Impl W)
unfolding manager_exit
stop m = manager_exit m
