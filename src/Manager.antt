-- ===== src/Manager.antt =====
-- src/web_manager_impl.cpp and src/web_manager.cpp: starting and stopping the whole server.
pub mod Init
pub mod Lifecycle
use Prim.Native.Nat.{bit_and}
use boost_web.Common.{
  ℕ, ◌+◌, ◌-◌, max, Bool, true, false, not, ◌||◌, ◌&&◌, ◌==◌, if◌then◌else◌, List, [], ◌∷◌, ◌++◌,
  Option, none, some, Bytes, String, length, head?,
}
use boost_web.Errors.{ErrorCode, Report, of_code, own}
use boost_web.Protocol.{protocol_ssl}
use boost_web.Listener.{Listener, Endpoint, Acceptor, construct, run}
use boost_web.Http.Target.{slash, is_front}

pub record ServiceNode : Type 0 where
  pub host : Bytes
  pub port : ℕ  -- unsigned short
  pub root : Bytes
  pub protocol : ℕ  -- unsigned char
  pub timeout : ℕ
  pub body_limit : ℕ

-- What a call of the SSL library's functions for certificates and keys ends with.
pub data Load : Type 0 where
  loaded : Load
  error_code : ErrorCode → Load
  exception : String → Load

-- What the manager uses of Boost.Asio.
pub record System (W : Type 0) : Type 0 where
  pub acceptor : Acceptor W
  pub make_address : Bytes → Option Bytes  -- none where it throws
  pub load_verify_file : Bytes → W → Load × W
  pub add_certificate_authority : Bytes → W → Load × W
  pub use_certificate_chain_file : Bytes → W → Load × W
  pub use_private_key_file : Bytes → W → Load × W
  pub use_certificate_chain : Bytes → W → Load × W
  pub use_private_key : Bytes → W → Load × W

-- `service_array` and `service_count`
pub data Services : Type 0 where
  null : ℕ → Services
  nodes : List ServiceNode → Services

abbrev pub service_count : Services → ℕ
service_count (null n) = n
service_count (nodes ns) = length ns

pub record Arguments : Type 0 where
  pub web_service : Bool  -- it is not the null pointer
  pub services : Services
  pub service_any_valid : Bool
  pub pass_file_not_buffer : Bool
  pub crt_file_or_buffer : Option Bytes
  pub key_file_or_buffer : Option Bytes
  pub thread_count : ℕ

pub record Client : Type 0 where
  pub ssl : Bool
  pub host : Bytes
  pub port : Bytes
  pub target : Bytes
  pub identity : ℕ
  pub timeout : ℕ

-- WebManagerImpl
pub record Impl (W : Type 0) : Type 0 where
  pub io_contexts : ℕ
  pub signal_sets : ℕ
  pub alive_works : ℕ
  pub stopped : Bool  -- the io_context is
  pub threads : ℕ
  pub has_service : Bool
  pub web_ports : List ℕ
  pub listeners : List Listener  -- those that run, oldest first
  pub clients : List Client  -- the connectors run, oldest first
  pub reports : List Report  -- calls of on_error so far, newest first
  pub world : W

-- What a call comes to.
pub data Answer (A : Type 0) : Type 0 where
  returned : Bool → A → Answer A
  threw : A → Answer A

-- `service_node.protocol & ~unsupported_protocols`
abbrev pub supported : ℕ → ServiceNode → ℕ
supported unsupported node = bit_and node.protocol (255 - unsupported)

unfoldable pub client_of : Bool → Option Bytes → Option Bytes → Option Bytes → ℕ → ℕ → Option Client
client_of ssl (some host) (some port) (some target) identity timeout =
    if is_front slash (head? target)
    then some (record {
      ssl = ssl;
      host = host;
      port = port;
      target = target;
      identity = identity;
      timeout = timeout;
    })
    else none
client_of ssl _ _ _ identity timeout = none

module _ {W : Type 0} where
  -- WebManagerImpl::WebManagerImpl
  abbrev pub new : W → Impl W
  new world = record {
    io_contexts = 0;
    signal_sets = 0;
    alive_works = 0;
    stopped = false;
    threads = 0;
    has_service = false;
    web_ports = [];
    listeners = [];
    clients = [];
    reports = [];
    world = world;
  }

  unfoldable pub report : Report → Impl W → Impl W
  report r k = record k { reports = r ∷ k.reports }

  -- WebManagerImpl::exit
  unfoldable pub exit : Impl W → Impl W
  exit k =
      if k.io_contexts == 0
      then record k { alive_works = 0; has_service = false; web_ports = [] }
      else record k {
        alive_works = 0;
        stopped = false;
        threads = 0;
        signal_sets = 0;
        io_contexts = 0;
        listeners = [];
        clients = [];
        has_service = false;
        web_ports = [];
      }

  -- The handler of SIGINT and SIGTERM, which init has installed
  unfoldable pub on_signal : Impl W → Impl W
  on_signal k = record k { stopped = true }

  unfoldable pub connect : Option Client → Impl W → Bool × Impl W
  connect none k = (false, k)
  connect (some client) k = (true, record k { clients = k.clients ++ client ∷ [] })

  -- WebManagerImpl::create_ws_client, and create_wss_client with `ssl`
  unfoldable pub create_client :
      Bool → Option Bytes → Option Bytes → Option Bytes → ℕ → ℕ → Impl W → Bool × Impl W
  unfolding client_of connect
  create_client ssl host port target identity timeout k =
      connect (client_of ssl host port target identity timeout) k
