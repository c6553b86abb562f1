-- ===== src/Handover.antt =====
-- How a connection changes hands, from src/listener.cpp and src/detect_session.cpp over
-- inc/http_session_base.hpp to a websocket session (src/websocket_session_plain.cpp,
-- src/websocket_session_ssl.cpp, inc/websocket_session_plain.h, inc/websocket_session_ssl.h).
pub mod Identity
pub mod Pending
use boost_web.Common.{ℕ, Bytes, Bool, String, Option, none, some, List}
use boost_web.Address.{Address}
use boost_web.Errors.{success}
use boost_web.DetectSession.{
  DetectSession, Detecting, Outcome, reported, session, Transport, plain, ssl, construct, on_run,
  on_detect,
}
use boost_web.HttpSession
use boost_web.HttpSession.{Handler}
use boost_web.Websocket.Session
use boost_web.Websocket.Service.{Service}
use boost_web.Websocket.Connection
use boost_web.Websocket.Connection.{Connection, start, accept}

-- WebsocketSession::protocol, WebsocketsSession::protocol
unfoldable pub websocket_protocol : Transport → String
websocket_protocol plain = "ws"
websocket_protocol ssl = "wss"

module _ {W : Type 0} where
  -- make_websocket_session, of a request to upgrade: the session is run with it.
  unfoldable pub make_websocket_session : Address → W → Connection W
  unfolding accept
  make_websocket_session address w = accept (start w (Session.new address))

  -- make_websocket_session, of a stream that this program has connected
  unfoldable pub make_websocket_client : Service W → Address → ℕ → W → Connection W
  unfolding Connection.run
  make_websocket_client sv address identity w =
      Connection.run sv identity (start w (Session.new address))

module _ {W : Type 0} (h : Handler W) where
  -- The end of DetectSession::on_detect: the session is made and run.
  unfoldable pub make_http_session : W → Outcome → Option (HttpSession.Session h)
  unfolding HttpSession.run
  make_http_session w (reported r) = none
  make_http_session w (session transport d) = some (
      HttpSession.run h (HttpSession.new h d.address d.timeout d.body_limit d.protocol transport w))

  -- What HttpSessionBase::on_recv gives the stream to
  unfoldable pub upgraded_to : Option h.Request → HttpSession.Session h → Option (Connection W)
  unfolding make_websocket_session
  upgraded_to none s = none
  upgraded_to (some req) s = some (make_websocket_session s.address s.world)
