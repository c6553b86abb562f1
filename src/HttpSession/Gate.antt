-- ===== src/HttpSession/Gate.antt =====
-- Which connections are served, from the detection of TLS (src/detect_session.cpp) to the first request
-- (inc/http_session_base.hpp), by the protocols that are switched on.
use boost_web.Common.{◌||◌, head?, subst, if_cases, arith}
use boost_web.HttpSession.{
  send, max_support_protocol, request_received, upgrade, respond, push, send_first, send,
  start_write, recv_more, recv, report, allowed,
}
use Prim.Native.Nat.{bit_and}
use boost_web.Common.{
  ℕ, ◌<◌, ◌≡◌, refl, sym, ◌∙◌, Bool, true, false, not, ◌&&◌, if◌then◌else◌, Option, none, some,
  length, holds_at, holds_up_to, ap,
}
use boost_web.Errors.{Report, success}
use boost_web.Protocol.{
  protocol_http, protocol_https, protocol_ws, protocol_wss, protocol_plain, protocol_ssl,
  protocol_wsss, protocol_httpss, meets,
}
use boost_web.DetectSession.{
  DetectSession, Transport, plain, ssl, Outcome, reported, session, on_detect,
}
use boost_web.HttpSession.{Handler, Session, new, on_recv}

-- The bit that stands for what the client wants.
unfoldable pub protocol_of : Bool → Bool → ℕ
protocol_of false false = protocol_http
protocol_of true false = protocol_https
protocol_of false true = protocol_ws
protocol_of true true = protocol_wss

is_some {ℓ} : {A : Type ℓ} → Option A → Bool
is_some none = false
is_some (some a) = true

module _ {W : Type 0} (h : Handler W) where
  open h use {Request, Response, is_upgrade}

  -- How a connection ends up after its first request.
  pub data Fate : Type 0 where
    undetected : Report → Fate
    received : Session h → Fate

  unfoldable pub first_request : W → Request → Outcome → Fate
  first_request w req (reported r) = undetected r
  first_request w req (session transport d) =
      received
        (on_recv h success req (new h d.address d.timeout d.body_limit d.protocol transport w))

  -- The request was answered, or the stream was given to a websocket session.
  unfoldable pub is_served : Fate → Bool
  unfolding is_some
  is_served (undetected r) = false
  is_served (received s) = is_some s.upgraded || is_some (head? s.handled)

  unfoldable pub errors : Fate → ℕ
  errors (undetected r) = 1
  errors (received s) = length s.reports

abbrev pub same : Bool → Bool → Bool
same true b = b
same false b = not b

same_sound : (a b : Bool) → same a b ≡ true → a ≡ b
same_sound true true e = refl
same_sound true false e = absurd (ground arith)
same_sound false true e = absurd (ground arith)
same_sound false false e = refl

-- Two tests, one after the other, come to the test of one bit.
abbrev pub agree : ℕ → ℕ → ℕ → ℕ → Bool
agree first second bit p = same (meets first p && meets second (bit_and first p)) (meets bit p)

pub agree_sound :
    (first second bit p : ℕ)
    → holds_up_to (agree first second bit) 256 ≡ true
    → p < 256
    → (meets first p && meets second (bit_and first p)) ≡ meets bit p
agree_sound first second bit p table lt =
    same_sound _ _ (holds_at (agree first second bit) 256 p lt table)

either : (f : Bool → Bool) (u : Bool) → f true ≡ false → f false ≡ false → f u ≡ false
either f true p q = p
either f false p q = q

plain_http : holds_up_to (agree protocol_plain protocol_httpss protocol_http) 256 ≡ true
unfolding holds_up_to
plain_http = refl

tls_http : holds_up_to (agree protocol_ssl protocol_httpss protocol_https) 256 ≡ true
unfolding holds_up_to
tls_http = refl

pub plain_ws : holds_up_to (agree protocol_plain protocol_wsss protocol_ws) 256 ≡ true
unfolding holds_up_to
plain_ws = refl

pub tls_wss : holds_up_to (agree protocol_ssl protocol_wsss protocol_wss) 256 ≡ true
unfolding holds_up_to
tls_wss = refl

module _ {W : Type 0} (h : Handler W) where
  open h use {Request, Response, is_upgrade}

  -- Served and no error, or not served and one error.
  unfoldable pub Verdict : Fate h → Bool → Type 0
  Verdict f c = (is_served h f ≡ c) × (errors h f ≡ (if c then 0 else 1))

  served : (f : Fate h) (c : Bool) → c ≡ true → is_served h f ≡ true → errors h f ≡ 0 → Verdict f c
  unfolding Verdict
  served f c set s e = subst (Verdict f) (sym set) (s, e)

  refused :
      (f : Fate h) (c : Bool) → c ≡ false → is_served h f ≡ false → errors h f ≡ 1 → Verdict f c
  unfolding Verdict
  refused f c unset s e = subst (Verdict f) (sym unset) (s, e)

  both : (a b c : Bool) → (a && b) ≡ c → a ≡ true → b ≡ c
  both true b c e set = e
  both false b c e set = absurd (ground arith)

  first_no : (a b c : Bool) → (a && b) ≡ c → a ≡ false → c ≡ false
  first_no true b c e unset = absurd (ground arith)
  first_no false b c e unset = sym e

  -- After the first test, the second one decides.
  at_session :
      (w : W) (req : Request) (d : DetectSession) (t : Transport) (tls : Bool)
      → (meets protocol_wsss (bit_and (max_support_protocol t) d.protocol)
          ≡ meets (protocol_of tls true) d.protocol)
      → (meets protocol_httpss (bit_and (max_support_protocol t) d.protocol)
          ≡ meets (protocol_of tls false) d.protocol)
      → Verdict
          (first_request h w req (session t d))
          (meets (protocol_of tls (is_upgrade req)) d.protocol)
  unfolding first_request on_recv request_received upgrade respond push send_first send start_write
      recv_more recv report allowed is_served errors
  at_session w req d t tls ws http =
      if_cases (λ s. Verdict (received s) (meets (protocol_of tls (is_upgrade req)) d.protocol))
        (is_upgrade req) _ _
        (λ up.
          if_cases (λ s. Verdict (received s) (meets (protocol_of tls (is_upgrade req)) d.protocol))
            (meets protocol_wsss (bit_and (max_support_protocol t) d.protocol)) _ _
            (λ set.
              served _ _ (ap (λ u. meets (protocol_of tls u) d.protocol) up ∙ sym ws ∙ set) refl
                refl)
            (λ unset.
              refused _ _ (ap (λ u. meets (protocol_of tls u) d.protocol) up ∙ sym ws ∙ unset) refl
                refl))
        (λ up.
          if_cases (λ s. Verdict (received s) (meets (protocol_of tls (is_upgrade req)) d.protocol))
            (meets protocol_httpss (bit_and (max_support_protocol t) d.protocol)) _ _
            (λ set.
              served _ _ (ap (λ u. meets (protocol_of tls u) d.protocol) up ∙ sym http ∙ set) refl
                refl)
            (λ unset.
              refused _ _ (ap (λ u. meets (protocol_of tls u) d.protocol) up ∙ sym http ∙ unset)
                refl refl))

  -- The two tests of the detector and of the session, by the tables.
  by_tables :
      (w : W) (req : Request) (d : DetectSession) (t : Transport) (tls : Bool) (r : Report)
      → holds_up_to (agree (max_support_protocol t) protocol_wsss (protocol_of tls true)) 256 ≡ true
      → holds_up_to (agree (max_support_protocol t) protocol_httpss (protocol_of tls false)) 256
        ≡ true
      → d.protocol < 256
      → Verdict
          (first_request h w req
            (if meets (max_support_protocol t) d.protocol then session t d else reported r))
          (meets (protocol_of tls (is_upgrade req)) d.protocol)
  unfolding first_request is_served errors
  by_tables w req d t tls r ws http lt =
      let ws_bit =
        agree_sound (max_support_protocol t) protocol_wsss (protocol_of tls true) d.protocol ws
          lt in
      let http_bit =
        agree_sound (max_support_protocol t) protocol_httpss (protocol_of tls false) d.protocol http
          lt in
      if_cases
        (λ o.
          Verdict (first_request h w req o) (meets (protocol_of tls (is_upgrade req)) d.protocol))
        (meets (max_support_protocol t) d.protocol) _ _
        (λ set. at_session w req d t tls (both _ _ _ ws_bit set) (both _ _ _ http_bit set))
        (λ unset.
          refused _ _
            (either (λ u. meets (protocol_of tls u) d.protocol) (is_upgrade req)
              (first_no _ _ _ ws_bit unset) (first_no _ _ _ http_bit unset))
            refl refl)

  -- A connection, detected without an error to speak TLS or not, whose first read brings a request, with
  -- protocols that fit an unsigned char: it is answered or handed to a websocket session exactly if the
  -- one bit of http, https, ws and wss that stands for TLS and the request's being an upgrade is set. It
  -- reports no error if it is, and one error if not.
  pub first_request_gate :
      (w : W) (req : Request) (d : DetectSession) (tls : Bool)
      → d.protocol < 256
      → Verdict
          (first_request h w req (on_detect success tls d))
          (meets (protocol_of tls (is_upgrade req)) d.protocol)
  unfolding on_detect max_support_protocol protocol_of
  first_request_gate w req d true lt = by_tables w req d ssl true _ tls_wss tls_http lt
  first_request_gate w req d false lt = by_tables w req d plain false _ plain_ws plain_http lt
