-- ===== src/Connector.antt =====
-- src/websocket_connector_plain.cpp and src/websocket_connector_ssl.cpp: the making of a websocket
-- connection to a server, one asynchronous operation after the other.
pub mod Answers
use boost_web.Common.{
  ℕ, Bool, if◌then◌else◌, String, List, [], ◌∷◌, ◌++◌, Option, none, some, Bytes, ◌≡◌, suc,
}
use boost_web.Address.{Address}
use boost_web.Errors.{ErrorCode, failed, Report, of_code}
use boost_web.DetectSession.{Transport, plain, ssl}

-- The operation that is outstanding.
pub data Stage : Type 0 where
  resolve connect ssl_handshake handshake : Stage

-- A call of WebServiceBase::on_connect for the client with this identity: with nullptr, or with the
-- connection, by the websocket session that is made with the stream and run with the identity.
pub data Answer : Type 0 where
  no_connection : ℕ → Answer
  connection : Address → ℕ → Answer

pub record Connector : Type 0 where
  pub transport : Transport  -- WebsocketConnector or WebsocketsConnector
  pub identity : ℕ
  pub timeout : ℕ
  pub host : Bytes
  pub port : Bytes
  pub target : Bytes
  pub outstanding : Option Stage
  pub deadline : Option ℕ  -- expires_after with these seconds, or expires_never
  pub answers : List Answer  -- oldest first
  pub reports : List Report  -- calls of on_error so far, newest first

-- WebsocketConnector::WebsocketConnector, WebsocketsConnector::WebsocketsConnector
abbrev pub new : Transport → ℕ → ℕ → Bytes → Bytes → Bytes → Connector
new transport identity timeout host port target = record {
  transport = transport;
  identity = identity;
  timeout = timeout;
  host = host;
  port = port;
  target = target;
  outstanding = none;
  deadline = none;
  answers = [];
  reports = [];
}

unfoldable pub protocol_name : Transport → String
protocol_name plain = "ws"
protocol_name ssl = "wss"

-- WebsocketConnector::error, WebsocketsConnector::error
unfoldable pub error : String → ErrorCode → Connector → Connector
unfolding protocol_name
error what ec c = record c {
  reports = of_code (protocol_name c.transport) what ec ∷ c.reports;
  answers = c.answers ++ no_connection c.identity ∷ [];
}

-- WebsocketConnector::run, WebsocketsConnector::run
unfoldable pub run : Connector → Connector
run c = record c { outstanding = some resolve }

-- on_resolve
unfoldable pub on_resolve : ErrorCode → Connector → Connector
unfolding error
on_resolve ec c =
    if failed ec
    then error "resolve" ec c
    else record c { outstanding = some connect; deadline = some c.timeout }

-- The stream's async_handshake, which has a timeout of its own
unfoldable pub start_handshake : Connector → Connector
start_handshake c = record c { outstanding = some handshake; deadline = none }

unfoldable pub connected : Transport → Connector → Connector
unfolding start_handshake
connected plain c = start_handshake c
connected ssl c = record c { outstanding = some ssl_handshake; deadline = some c.timeout }

-- on_connect
unfoldable pub on_connect : ErrorCode → Connector → Connector
unfolding error connected
on_connect ec c = if failed ec then error "connect" ec c else connected c.transport c

-- WebsocketsConnector::on_ssl_handshake
unfoldable pub on_ssl_handshake : ErrorCode → Connector → Connector
unfolding error start_handshake
on_ssl_handshake ec c = if failed ec then error "ssl handshake" ec c else start_handshake c

-- on_handshake, with the addresses of the socket
unfoldable pub on_handshake : ErrorCode → Address → Connector → Connector
unfolding error
on_handshake ec address c =
    if failed ec
    then error "handshake" ec c
    else record c { answers = c.answers ++ connection address c.identity ∷ [] }

-- The completion handler of an operation
unfoldable pub complete : Stage → ErrorCode → Address → Connector → Connector
unfolding on_resolve on_connect on_ssl_handshake on_handshake
complete resolve ec address c = on_resolve ec c
complete connect ec address c = on_connect ec c
complete ssl_handshake ec address c = on_ssl_handshake ec c
complete handshake ec address c = on_handshake ec address c

-- The states of a connector that has run, after `n` of its operations have ended, each with whatever
-- error or success.
pub data After : ℕ → Connector → Type 0 where
  running :
      (transport : Transport) (identity timeout : ℕ) (host port target : Bytes)
      → After 0 (run (new transport identity timeout host port target))
  ended :
      {n : ℕ} {c : Connector}
      → (stage : Stage) (ec : ErrorCode) (address : Address) → After n c
      → c.outstanding ≡ some stage
      → After (suc n) (complete stage ec address (record c { outstanding = none }))
