-- ===== src/Echo/Start.antt =====
-- echo/echo_service.cpp: init and exit of EchoService, and what reaches its callbacks for requests,
-- target_is_path and handle_request, which only assert false.
use boost_web.Common.{
  ℕ, ◌≡◌, refl, sym, ap, ◌∙◌, subst, if_cases, tail, Bool, true, false, List, [], ◌∷◌, Option, none,
  some, codes,
}
use mathlib.Core.Option.{some-injective}
use Prim.Native.Nat.{bit_and}
use boost_web.Errors.{success}
use boost_web.Protocol.{protocol_plain, protocol_wsss, protocol_httpss, protocol_ssl, meets}
use boost_web.DetectSession.{
  DetectSession, Outcome, reported, session, Transport, plain, ssl, on_detect,
}
use boost_web.Handover.{make_http_session}
use boost_web.HttpSession
use boost_web.HttpSession.{Handler, Session, max_support_protocol}
use boost_web.HttpSession.Events.{Steps}
use boost_web.HttpSession.Silent.{Silent, run-Silent, Steps-Silent}
use boost_web.Listener.{Listener}
use boost_web.Manager.{ServiceNode, System, nodes, Arguments, Impl, Answer, returned, threw}
use boost_web.Manager.Init.Attempt.{Serves}
use boost_web.Manager.Init.AllValid.{ServesAll}
use boost_web.Manager.Init.Started.{AllStarted, unsupported_of, all_valid_started}
use boost_web.Manager.Lifecycle.{kept, manager_init, manager_exit}

abbrev pub service_node : ServiceNode
service_node = record {
  host = codes "0.0.0.0";
  port = 12345;
  root = codes "/";
  protocol = protocol_wsss;
  timeout = 15;
  body_limit = 0;
}

abbrev pub echo_arguments : Arguments
echo_arguments = record {
  web_service = true;
  services = nodes (service_node ∷ []);
  service_any_valid = false;
  pass_file_not_buffer = true;
  crt_file_or_buffer = none;
  key_file_or_buffer = none;
  thread_count = 1;
}

module _ {W : Type 0} where
  -- EchoService::init
  unfoldable pub start : System W → W → Option (Impl W) → Answer (Option (Impl W))
  unfolding manager_init
  start sys w m = manager_init sys echo_arguments w m

  -- EchoService::exit
  unfoldable pub stop : Option (Impl W) → Option (Impl W) × Option (Impl W)
  unfolding manager_exit
  stop m = manager_exit m

-- The one Listener of a node
only :
    (unsupported : ℕ) (node : ServiceNode) (ls : List Listener)
    → ServesAll unsupported (node ∷ []) ls
    → (l : Listener) × Serves unsupported node l × (ls ≡ l ∷ [])
only unsupported node _ (ServesAll.more {l = l} serves ServesAll.none) = (l, serves, refl)

module _ {V : Type 0} (sys : System V) where
  impl_of : Impl V → Answer (Option (Impl V)) → Impl V
  impl_of k₀ (returned b (some k)) = k
  impl_of k₀ _ = k₀

  listeners_of :
      (r : Answer (Impl V)) (k : Impl V)
      → AllStarted protocol_ssl (service_node ∷ []) 1 r
      → kept sys r ≡ returned true (some k)
      → (l : Listener) × Serves protocol_ssl service_node l × (k.listeners ≡ l ∷ [])
  unfolding kept AllStarted impl_of
  listeners_of (returned true k') k (serves, _, _, _) e =
      let (l, serving, one) = only protocol_ssl service_node k'.listeners serves in
      (l, serving, ap (λ (m : Answer (Option (Impl V))). (impl_of k' m).listeners) (sym e) ∙ one)
  listeners_of (returned false k') k _ e = absurd (cc)
  listeners_of (threw k') k _ e = absurd (cc)

  started :
      (v : V) (k : Impl V)
      → start sys v none ≡ returned true (some k)
      → (l : Listener) × Serves protocol_ssl service_node l × (k.listeners ≡ l ∷ [])
  unfolding start manager_init unsupported_of
  started v k e = listeners_of _ k (all_valid_started sys echo_arguments service_node [] v) e

-- The session that a connection becomes has these protocols.
Has : ℕ → Outcome → Type 0
Has p (reported r) = Unit
Has p (session t d) = d.protocol ≡ p

on_detect-Has :
    (tls : Bool) (p : ℕ) (d : DetectSession) → d.protocol ≡ p → Has p (on_detect success tls d)
unfolding on_detect Has
on_detect-Has true p d at = if_cases (Has p) (meets protocol_ssl d.protocol) _ _ (λ _. at) (λ _. tt)
on_detect-Has false p d at =
    if_cases (Has p) (meets protocol_plain d.protocol) _ _ (λ _. at) (λ _. tt)

module _ {W : Type 0} (h : Handler W) where
  -- No request but one to upgrade is let through to the service.
  off : (t : Transport) → meets protocol_httpss (bit_and (max_support_protocol t) 4) ≡ false
  unfolding max_support_protocol
  off plain = refl
  off ssl = refl

  made-Silent :
      (w : W) (p : ℕ) (o : Outcome) (s : Session h)
      → Has p o
      → make_http_session h w o ≡ some s
      → (t : Transport) × Silent h w t p s
  unfolding make_http_session Has
  made-Silent w p (reported r) s at e = absurd (cc)
  made-Silent w p (session t d) s at e =
      let made =
        HttpSession.run h (HttpSession.new h d.address d.timeout d.body_limit d.protocol t w) in
      (
        t,
        subst (λ s'. Silent h w t p s') (some-injective made s e)
            (subst (λ p'. Silent h w t p' made) at
              (run-Silent h w t d.protocol d.address d.timeout d.body_limit)),
      )

first_protocol : List Listener → ℕ
first_protocol [] = 0
first_protocol (l ∷ ls) = l.protocol

-- Where EchoService::init has returned true, with no implementation before, there is one Listener,
-- and the HTTP session of a connection that has its protocols and is detected without an error,
-- over TLS or not, never makes a response by handle_request, in whatever order its operations end,
-- and leaves the service's state as it was.
pub never_asked :
    {V W : Type 0} (sys : System V) (v : V) (k : Impl V) (h : Handler W) (w : W) (l : Listener)
    (more : List Listener) (tls : Bool) (d : DetectSession) (s s' : Session h)
    → start sys v none ≡ returned true (some k)
    → k.listeners ≡ l ∷ more
    → d.protocol ≡ l.protocol
    → make_http_session h w (on_detect success tls d) ≡ some s
    → Steps h s s'
    → (more ≡ []) × (s'.handled ≡ []) × (s'.world ≡ w)
unfolding first_protocol
never_asked sys v k h w l more tls d s s' begun listens same made steps =
    let (l', serves, one) = started sys v k begun in
    let lists = sym listens ∙ one in
    let at : d.protocol ≡ 4 = same ∙ ap first_protocol lists ∙ serves.for_protocol in
    let (t, silent) =
      made-Silent h w 4 (on_detect success tls d) s (on_detect-Has tls 4 d at) made in
    let quiet = Steps-Silent h w t 4 (off h t) s s' steps silent in
    (ap tail lists, quiet.handled, quiet.world)
