-- ===== src/HttpSession.antt =====
-- inc/http_session_base.hpp, src/http_session_plain.cpp, src/http_session_ssl.cpp: an HTTP connection,
-- which reads ahead of the responses that it still has to write.
pub mod Events
pub mod Gate
pub mod Silent
pub mod Pipeline
use boost_web.Common.{
  ℕ, ◌+◌, Bool, true, not, ◌||◌, List, [], ◌∷◌, ◌++◌, Option, none, some, Bytes, String, length,
  tail, ltb, ◌==◌, if◌then◌else◌, ◌&&◌, false,
}
use Prim.Native.Nat.{bit_and}
use boost_web.Address.{Address}
use boost_web.Errors.{ErrorCode, failed, is_truncated, is_end_of_stream, Report, of_code, own}
use boost_web.Protocol.{
  protocol_plain, protocol_ssl, protocol_wsss, protocol_httpss, protocol_wss, protocol_https, meets,
}
use boost_web.DetectSession.{Transport, plain, ssl}

-- What the session uses of Boost.Beast's messages, and the request handler that it calls:
-- boost::beast::websocket::is_upgrade, message_generator::keep_alive and handle_request.
pub record Handler (W : Type 0) : Type 1 where
  pub Request : Type 0
  pub Response : Type 0
  pub is_upgrade : Request → Bool
  pub keep_alive : Response → Bool
  pub handle_request : W → Address → Request → Response × W

abbrev pub queue_limit : ℕ
queue_limit = 8

-- HttpSession::protocol, HttpsSession::protocol
unfoldable pub protocol_name : Transport → String
protocol_name plain = "http"
protocol_name ssl = "https"

-- HttpSession::max_support_protocol, HttpsSession::max_support_protocol
unfoldable pub max_support_protocol : Transport → ℕ
max_support_protocol plain = protocol_plain
max_support_protocol ssl = protocol_ssl

module _ {W : Type 0} (h : Handler W) where
  open h use {Request, Response, is_upgrade, keep_alive, handle_request}

  -- The session, with what it has outstanding on its stream and what it has done so far.
  pub record Session : Type 0 where
    pub address : Address
    pub timeout : ℕ
    pub body_limit : ℕ
    pub protocol : ℕ
    pub transport : Transport
    pub response_queue : List Response
    pub world : W  -- the service's own state
    pub handshaking : Bool  -- async_handshake is outstanding
    pub reading : Bool  -- async_read is outstanding
    pub writing : Option (Response × Bool)  -- what async_write was given, and `close`
    pub shutting : ℕ  -- how many async_shutdown are outstanding
    pub shutdown : Bool  -- the socket is shut down for sending
    pub parser_limit : Option ℕ  -- the parser's body_limit, where it is not the library's own
    pub deadline : Option ℕ  -- expires_after with these seconds, or expires_never
    pub upgraded : Option Request  -- the stream was given to a websocket session
    pub reports : List Report  -- calls of on_error so far, newest first
    pub handled : List Response  -- made by handle_request so far, oldest first
    pub written : List Response  -- whose async_write has ended well, oldest first
    pub fault : Bool  -- a read or a write was started while another was outstanding

  -- HttpSessionBase::HttpSessionBase
  abbrev pub new : Address → ℕ → ℕ → ℕ → Transport → W → Session
  new address timeout body_limit protocol transport world = record {
    address = address;
    timeout = timeout;
    body_limit = body_limit;
    protocol = protocol;
    transport = transport;
    response_queue = [];
    world = world;
    handshaking = false;
    reading = false;
    writing = none;
    shutting = 0;
    shutdown = false;
    parser_limit = none;
    deadline = none;
    upgraded = none;
    reports = [];
    handled = [];
    written = [];
    fault = false;
  }

  -- HttpSessionBase::get_host_address, HttpSessionBase::get_peer_address
  unfoldable pub get_host_address : Session → Bytes × ℕ
  get_host_address s = (s.address.host_ip, s.address.host_port)

  unfoldable pub get_peer_address : Session → Bytes × ℕ
  get_peer_address s = (s.address.peer_ip, s.address.peer_port)

  unfoldable pub report : Report → Session → Session
  report r s = record s { reports = r ∷ s.reports }

  -- HttpSessionBase::recv
  unfoldable pub recv : Session → Session
  recv s = record s {
    reading = true;
    parser_limit = if s.body_limit == 0 then none else some s.body_limit;
    deadline = some s.timeout;
    fault = s.fault || s.reading;
  }

  -- HttpSession::eof shuts the socket down for sending; HttpsSession::eof starts async_shutdown.
  unfoldable pub eof_of : Transport → Session → Session
  eof_of plain s = record s { shutdown = true }
  eof_of ssl s = record s { shutting = s.shutting + 1; deadline = some s.timeout }

  unfoldable pub eof : Session → Session
  unfolding eof_of
  eof s = eof_of s.transport s

  -- HttpSession::run, HttpsSession::run
  unfoldable pub run_of : Transport → Session → Session
  unfolding recv
  run_of plain s = recv s
  run_of ssl s = record s { handshaking = true; deadline = some s.timeout }

  unfoldable pub run : Session → Session
  unfolding run_of
  run s = run_of s.transport s

  -- HttpsSession::on_handshake
  unfoldable pub on_handshake : ErrorCode → Session → Session
  unfolding recv report
  on_handshake ec s =
      if failed ec
      then (if is_truncated ec
          then s
          else report (of_code (protocol_name s.transport) "handshake" ec) s)
      else recv s

  -- HttpsSession::on_shutdown
  unfoldable pub on_shutdown : ErrorCode → Session → Session
  unfolding report
  on_shutdown ec s =
      if failed ec && not (is_truncated ec)
      then report (of_code (protocol_name s.transport) "shutdown" ec) s
      else s

  unfoldable pub start_write : Session → Option (Response × Bool) → List Response → Session
  start_write s outstanding [] = s
  start_write s none (front ∷ _) = record s { writing = some (front, not (keep_alive front)) }
  start_write s (some _) (front ∷ _) = record s { fault = true }

  -- HttpSessionBase::send
  unfoldable pub send : Session → Session
  unfolding start_write
  send s = start_write s s.writing s.response_queue

  -- The protocols of this session.
  unfoldable pub allowed : Session → ℕ
  unfolding max_support_protocol
  allowed s = bit_and (max_support_protocol s.transport) s.protocol

  unfoldable pub upgrade : Request → Session → Session
  unfolding report allowed max_support_protocol protocol_name
  upgrade req s =
      if meets protocol_wsss (allowed s)
      then record s { upgraded = some req; deadline = none }
      else report
          (own (protocol_name s.transport) "recv" (
            if meets protocol_wss (max_support_protocol s.transport)
            then "not support wss protocol"
            else "not support ws protocol"))
          s

  -- `m_response_queue.push(std::move(message))`
  unfoldable pub push : Response → W → Session → Session
  push res world s = record s {
    response_queue = s.response_queue ++ res ∷ [];
    handled = s.handled ++ res ∷ [];
    world = world;
  }

  unfoldable pub send_first : Session → Session
  unfolding send
  send_first s = if length s.response_queue == 1 then send s else s

  unfoldable pub recv_more : Session → Session
  unfolding recv
  recv_more s = if ltb (length s.response_queue) queue_limit then recv s else s

  unfoldable pub respond : Request → Session → Session
  unfolding push send_first recv_more
  respond req s =
      let (res, world) = handle_request s.world s.address req in
      recv_more (send_first (push res world s))

  unfoldable pub request_received : Request → Session → Session
  unfolding upgrade respond report allowed max_support_protocol protocol_name
  request_received req s =
      if is_upgrade req
      then upgrade req s
      else if meets protocol_httpss (allowed s)
      then respond req s
      else report
          (own (protocol_name s.transport) "recv" (
            if meets protocol_https (max_support_protocol s.transport)
            then "not support https protocol"
            else "not support http protocol"))
          s

  unfoldable pub recv_failed : ErrorCode → Session → Session
  unfolding eof report protocol_name
  recv_failed ec s =
      if is_end_of_stream ec
      then eof s
      else if is_truncated ec
      then s
      else report (of_code (protocol_name s.transport) "recv" ec) s

  unfoldable pub send_failed : ErrorCode → Session → Session
  unfolding report protocol_name
  send_failed ec s =
      if is_truncated ec then s else report (of_code (protocol_name s.transport) "send" ec) s

  -- `if (m_response_queue.size() == queue_limit) { recv(); }`
  unfoldable pub recv_again : Session → Session
  unfolding recv
  recv_again s = if length s.response_queue == queue_limit then recv s else s

  -- `m_response_queue.pop()`
  unfoldable pub pop : Session → Session
  pop s = record s { response_queue = tail s.response_queue }

  -- HttpSessionBase::on_send
  unfoldable pub on_send : Bool → ErrorCode → Session → Session
  unfolding send_failed eof recv_again pop send
  on_send close ec s =
      if failed ec then send_failed ec s else if close then eof s else send (pop (recv_again s))

  -- HttpSessionBase::on_recv, with the request that the parser has read
  unfoldable pub on_recv : ErrorCode → Request → Session → Session
  unfolding recv_failed request_received
  on_recv ec req s = if failed ec then recv_failed ec s else request_received req s
