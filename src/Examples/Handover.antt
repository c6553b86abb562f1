-- ===== src/Examples/Handover.antt =====
-- An echo server that is asked for a websocket (src/detect_session.cpp, inc/http_session_base.hpp,
-- inc/websocket_session_base.hpp).
use boost_web.Common.{◌≡◌, refl, arith, Bool, true, false, [], ◌∷◌, some, none, codes}
use boost_web.Address.{Address}
use boost_web.Errors.{success}
use boost_web.DetectSession.{ssl, construct, on_detect}
use boost_web.Protocol.{protocol_wss, protocol_wsss, protocol_all, meets}
use boost_web.HttpSession.{Handler, Session, new, on_recv, on_send, allowed, max_support_protocol}
use boost_web.HttpSession.Gate.{protocol_of}
use boost_web.Websocket.Members
use boost_web.Websocket.Service.{accepted}
use boost_web.Websocket.Connection
use boost_web.Websocket.Connection.{Connection}
use boost_web.Echo.{EchoService, echo_service}
use boost_web.Handover.{make_http_session}
use boost_web.Handover.Identity.{websocket_of, websocket_tells_ends}
use boost_web.Handover.Pending.{upgrade_leaves_responses}

-- A request is whether it asks for an upgrade; each response keeps the connection open.
abbrev keeping : Handler EchoService
keeping = record {
  Request = Bool;
  Response = Bool;
  is_upgrade = λ req. req;
  keep_alive = λ res. true;
  handle_request = λ e address req. (true, e);
}

abbrev nobody : EchoService
nobody = record { connect_count = 0; disconnect_count = 0 }

wss_set : meets (protocol_of true true) protocol_wss ≡ true
unfolding protocol_of
wss_set = refl

websocket_tells_ends_example :
    (k : Connection EchoService) × (websocket_of keeping ssl true (
        make_http_session keeping nobody (
          on_detect success true
            (construct (codes "10.0.0.1", 443) (codes "10.0.0.2", 50000) 30 0 protocol_wss)))
      ≡ some k)
    × (Members.get_host_address k.session ≡ (codes "10.0.0.1", 443))
    × (Members.get_peer_address k.session ≡ (codes "10.0.0.2", 50000))
    × ((Connection.on_accept echo_service success (record k { accepting = false })).callbacks
        ≡ accepted 443 ∷ [])
websocket_tells_ends_example =
    websocket_tells_ends keeping echo_service nobody true true (codes "10.0.0.1", 443)
      (codes "10.0.0.2", 50000) 30 0 protocol_wss refl (omega arith) wss_set

abbrev local : Address
local = record {
  host_ip = codes "10.0.0.1";
  host_port = 443;
  peer_ip = codes "10.0.0.2";
  peer_port = 50000;
}

-- Two responses are queued, and the first one is being written.
abbrev busy : Session keeping
busy = record (new keeping local 30 0 protocol_all ssl nobody) {
  response_queue = true ∷ false ∷ [];
  writing = some (true, false);
}

busy-allowed : meets protocol_wsss (allowed keeping busy) ≡ true
unfolding allowed max_support_protocol
busy-allowed = refl

upgrade_leaves_responses_example :
    let s' = on_recv keeping success true busy in
    let s'' = on_send keeping false success (record s' { writing = none }) in
    (s'.upgraded ≡ some true)
    × (s'.writing ≡ busy.writing)
    × (s''.upgraded ≡ some true)
    × (s''.writing ≡ some (false, false))
upgrade_leaves_responses_example =
    upgrade_leaves_responses keeping busy true true false [] refl busy-allowed refl
