-- ===== src/DetectSession.antt =====
-- src/detect_session.cpp: what becomes of an accepted connection, once it is known whether the client
-- speaks TLS.
use boost_web.Common.{ℕ, Bytes, Bool, if◌then◌else◌}
use boost_web.Address.{Address}
use boost_web.Errors.{ErrorCode, failed, Report, of_code, own}
use boost_web.Protocol.{protocol_ssl, protocol_plain, meets}

pub record DetectSession : Type 0 where
  pub address : Address
  pub timeout : ℕ  -- std::chrono::seconds
  pub body_limit : ℕ  -- uint64_t
  pub protocol : ℕ  -- unsigned char

-- DetectSession::DetectSession, with the local and the remote end of the socket, as an address and a port;
-- of an end that is not known, Boost.Asio gives those of a default endpoint.
unfoldable pub construct : Bytes × ℕ → Bytes × ℕ → ℕ → ℕ → ℕ → DetectSession
construct (host_ip, host_port) (peer_ip, peer_port) timeout body_limit protocol = record {
  address = record {
    host_ip = host_ip;
    host_port = host_port;
    peer_ip = peer_ip;
    peer_port = peer_port;
  };
  timeout = timeout;
  body_limit = body_limit;
  protocol = protocol;
}

-- A session whose async_detect_ssl is outstanding, and the seconds that it has
pub record Detecting : Type 0 where
  pub session : DetectSession
  pub deadline : ℕ

-- DetectSession::on_run, which run dispatches
unfoldable pub on_run : DetectSession → Detecting
on_run d = record { session = d; deadline = d.timeout }

-- HttpSession (src/http_session_plain.cpp) or HttpsSession (src/http_session_ssl.cpp)
pub data Transport : Type 0 where
  plain ssl : Transport

pub data Outcome : Type 0 where
  reported : Report → Outcome
  session : Transport → DetectSession → Outcome

-- DetectSession::on_detect; a session is started with the members of this one.
unfoldable pub on_detect : ErrorCode → Bool → DetectSession → Outcome
on_detect ec result d =
    if failed ec
    then reported (of_code "detector" "detect" ec)
    else if result
    then (if meets protocol_ssl d.protocol
        then session ssl d
        else reported (own "detector" "detect" "not support ssl protocol"))
    else if meets protocol_plain d.protocol
    then session plain d
    else reported (own "detector" "detect" "not support plain protocol")
