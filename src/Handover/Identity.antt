-- ===== src/Handover/Identity.antt =====
-- What the service is told of a connection, from the socket to on_accept.
use boost_web.Common.{
  ℕ, ◌<◌, ◌≡◌, refl, ◌∙◌, Bool, true, false, ◌&&◌, both, Option, none, some, Bytes, [], ◌∷◌,
}
use boost_web.Address.{Address}
use boost_web.Errors.{success}
use boost_web.Protocol.{protocol_plain, protocol_ssl, protocol_wsss, meets}
use Prim.Native.Nat.{bit_and}
use boost_web.DetectSession.{DetectSession, Transport, plain, ssl, construct, on_detect}
use boost_web.HttpSession
use boost_web.HttpSession.{Handler, max_support_protocol}
use boost_web.HttpSession.Gate.{protocol_of, agree_sound, tls_wss, plain_ws}
use boost_web.Websocket.Members
use boost_web.Websocket.Session
use boost_web.Websocket.Service.{Service, accepted}
use boost_web.Websocket.Frame.{perform-Frame}
use boost_web.Websocket.Connection
use boost_web.Websocket.Connection.{Connection, start, accept, perform, then_recv}
use boost_web.Handover.{make_websocket_session, make_http_session, upgraded_to}

abbrev pub transport_of : Bool → Transport
transport_of true = ssl
transport_of false = plain

module _ {W : Type 0} (h : Handler W) where
  -- A session that has been run, once the handshake of TLS has ended well
  abbrev pub opened : Transport → HttpSession.Session h → HttpSession.Session h
  opened plain s = s
  opened ssl s = HttpSession.on_handshake h success (record s { handshaking = false })

  -- Its read has brought a request.
  abbrev pub requested : Transport → h.Request → HttpSession.Session h → HttpSession.Session h
  requested t req s = HttpSession.on_recv h success req (record (opened t s) { reading = false })

  -- The websocket session that the connection becomes
  abbrev pub websocket_of :
      Transport → h.Request → Option (HttpSession.Session h) → Option (Connection W)
  websocket_of t req none = none
  websocket_of t req (some s) = let s' = requested t req s in upgraded_to h s'.upgraded s'

  -- The detector and the session each let it through.
  let_through :
      (tls : Bool) (protocol : ℕ)
      → protocol < 256
      → meets (protocol_of tls true) protocol ≡ true
      → (meets (max_support_protocol (transport_of tls)) protocol
          && meets protocol_wsss (bit_and (max_support_protocol (transport_of tls)) protocol))
        ≡ true
  unfolding max_support_protocol protocol_of
  let_through true protocol small set =
      agree_sound protocol_ssl protocol_wsss _ protocol tls_wss small ∙ set
  let_through false protocol small set =
      agree_sound protocol_plain protocol_wsss _ protocol plain_ws small ∙ set

  becomes :
      (tls : Bool) (w : W) (req : h.Request) (d : DetectSession)
      → h.is_upgrade req ≡ true
      → meets (max_support_protocol (transport_of tls)) d.protocol ≡ true
      → meets protocol_wsss (bit_and (max_support_protocol (transport_of tls)) d.protocol) ≡ true
      → websocket_of (transport_of tls) req (make_http_session h w (on_detect success tls d))
        ≡ some (make_websocket_session d.address w)
  unfolding make_http_session on_detect max_support_protocol upgraded_to HttpSession.run
      HttpSession.recv HttpSession.on_handshake HttpSession.on_recv HttpSession.request_received
      HttpSession.upgrade HttpSession.allowed
  becomes true w req d up first second =
      rw (first) (rw (up) (rw (second, HttpSession.upgrade) refl))
  becomes false w req d up first second =
      rw (first) (rw (up) (rw (second, HttpSession.upgrade) refl))

module _ {W : Type 0} (sv : Service W) where
  then_recv-callbacks : (r : Bool × Connection W) → (then_recv r).callbacks ≡ r.1.callbacks
  unfolding then_recv Connection.recv Connection.eof
  then_recv-callbacks (true, k) = refl
  then_recv-callbacks (false, k) = refl

  accepted_once :
      (address : Address) (w : W)
      → let k = make_websocket_session address w in
        (Connection.on_accept sv success (record k { accepting = false })).callbacks
        ≡ accepted address.host_port ∷ []
  unfolding Connection.on_accept Connection.call make_websocket_session accept
  accepted_once address w =
      let port = address.host_port in
      let k = start w (Session.new address) in
      let k' = record k { callbacks = accepted port ∷ [] } in
      then_recv-callbacks (perform (sv.on_accept w port) k')
      ∙ (perform-Frame (sv.on_accept w port) k').callbacks

-- Where the bit of ws or wss is set that goes with what the client speaks, with protocols that fit
-- an unsigned char, a connection that is detected without an error, opened without one and then
-- brings a request to upgrade becomes a websocket connection, of which get_host_address and
-- get_peer_address tell the two ends of the socket, and a handshake that ends well makes one
-- callback, on_accept with the port of the local end.
pub websocket_tells_ends :
    {W : Type 0} (h : Handler W) (sv : Service W) (w : W) (req : h.Request) (tls : Bool)
    (local remote : Bytes × ℕ) (timeout body_limit protocol : ℕ)
    → h.is_upgrade req ≡ true
    → protocol < 256
    → meets (protocol_of tls true) protocol ≡ true
    → let d = construct local remote timeout body_limit protocol in
      (k : Connection W) × (websocket_of h
          (transport_of tls)
          req
          (make_http_session h w (on_detect success tls d))
        ≡ some k)
      × (Members.get_host_address k.session ≡ local)
      × (Members.get_peer_address k.session ≡ remote)
      × ((Connection.on_accept sv success (record k { accepting = false })).callbacks
          ≡ accepted local.1 ∷ [])
unfolding construct make_websocket_session accept Members.get_host_address Members.get_peer_address
websocket_tells_ends h sv w req tls local remote timeout body_limit protocol up small set =
    let d = construct local remote timeout body_limit protocol in
    let mine = max_support_protocol (transport_of tls) in
    let (first, second) =
      both (meets mine protocol) (meets protocol_wsss (bit_and mine protocol))
        (let_through h tls protocol small set) in
    (
      make_websocket_session d.address w,
      becomes h tls w req d up first second,
      refl,
      refl,
      accepted_once sv d.address w,
    )
