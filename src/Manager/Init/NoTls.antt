-- ===== src/Manager/Init/NoTls.antt =====
-- TLS connections to a Listener of a server without a certificate (src/web_manager_impl.cpp,
-- src/detect_session.cpp).
use Prim.Native.Nat.{bit_and}
use boost_web.Common.{
  subst, sym, All, max, length, List, [], ◌∷◌, ◌++◌, some, inl, inr, ◌⊎◌, ℕ, ◌<◌, ◌-◌, ◌≡◌, refl,
  ◌∙◌, ap, Bool, true, false, not, holds_up_to, holds_at, Option, none, Bytes, arith,
}
use boost_web.Errors.{success, own}
use boost_web.Protocol.{protocol_ssl, meets}
use boost_web.DetectSession.{DetectSession, reported, on_detect}
use boost_web.Listener.{Listener}
use boost_web.Manager.{ServiceNode, System, Arguments, Impl, Answer, returned, new}
use boost_web.Manager.Init.{init}
use boost_web.Manager.Init.AllValid.{ServesAll}
use boost_web.Manager.Init.Attempt.{Serves}
use boost_web.Manager.Init.Started.{
  unsupported_of, server, OneStarted, AllStarted, any_valid_started, all_valid_started,
}

masked : ℕ → Bool
masked p = not (meets protocol_ssl (bit_and p (255 - protocol_ssl)))

table : holds_up_to masked 256 ≡ true
unfolding holds_up_to masked
table = refl

not-true : (b : Bool) → not b ≡ true → b ≡ false
not-true true e = absurd (ground arith)
not-true false e = refl

no_tls : (p : ℕ) → p < 256 → meets protocol_ssl (bit_and p (255 - protocol_ssl)) ≡ false
unfolding masked
no_tls p lt = not-true _ (holds_at masked 256 p lt table)

refuses :
    (node : ServiceNode) (l : Listener) (d : DetectSession)
    → node.protocol < 256
    → Serves protocol_ssl node l
    → d.protocol ≡ l.protocol
    → on_detect success true d ≡ reported (own "detector" "detect" "not support ssl protocol")
unfolding on_detect
refuses node l d lt s e =
    let off : meets protocol_ssl d.protocol ≡ false =
      ap (meets protocol_ssl) (e ∙ s.for_protocol) ∙ no_tls node.protocol lt in
    rw off refl

-- It runs for a node with protocols that fit an unsigned char.
abbrev Masked : Listener → Type 0
Masked l = (node : ServiceNode) × (node.protocol < 256) × Serves protocol_ssl node l

All-at :
    {A : Type 0} (P : A → Type 0) (before after : List A) (x : A)
    → All P (before ++ x ∷ after)
    → P x
All-at P [] after x h = h.0
All-at P (_ ∷ before) after x h = All-at P before after x h.1

ServesAll-Masked :
    (ns : List ServiceNode) (ls : List Listener)
    → All (λ (n : ServiceNode). n.protocol < 256) ns
    → ServesAll protocol_ssl ns ls
    → All Masked ls
ServesAll-Masked _ _ small ServesAll.none = tt
ServesAll-Masked _ _ small (ServesAll.more {node = node} {ns = ns} {ls = ls} s ss) =
    ((node, small.0, s), ServesAll-Masked ns ls small.1 ss)

no_certificate :
    (crt key : Option Bytes) → (crt ≡ none) ⊎ (key ≡ none) → unsupported_of crt key ≡ protocol_ssl
unfolding unsupported_of
no_certificate none key _ = refl
no_certificate (some crt) none _ = refl
no_certificate (some crt) (some key) (inl e) = absurd (cc)
no_certificate (some crt) (some key) (inr e) = absurd (cc)

module _ {W : Type 0} where
  OneStarted-Masked :
      (ns : List ServiceNode) (count : ℕ) (a : Answer (Impl W)) (k : Impl W)
      → All (λ (n : ServiceNode). n.protocol < 256) ns
      → a ≡ returned true k
      → OneStarted protocol_ssl ns count a
      → All Masked k.listeners
  unfolding OneStarted
  OneStarted-Masked ns count a k small e started =
      let one = subst (OneStarted protocol_ssl ns count) e started in
      let (before, node, after, l, at, s, ls, _, _, _) = one in
      let lt =
        All-at (λ (n : ServiceNode). n.protocol < 256) before after node
          (subst (All λ (n : ServiceNode). n.protocol < 256) at small) in
      subst (All Masked) (sym ls) ((node, lt, s), tt)

  AllStarted-Masked :
      (ns : List ServiceNode) (count : ℕ) (a : Answer (Impl W)) (k : Impl W)
      → All (λ (n : ServiceNode). n.protocol < 256) ns
      → a ≡ returned true k
      → AllStarted protocol_ssl ns count a
      → All Masked k.listeners
  unfolding AllStarted
  AllStarted-Masked ns count a k small e started =
      ServesAll-Masked ns k.listeners small (subst (AllStarted protocol_ssl ns count) e started).0

-- Where init, called on a new implementation with a service, at least one node and no certificate
-- or no key, with protocols of the nodes that fit an unsigned char, has returned true, whether
-- with service_any_valid or not: a connection with the protocols of any Listener of the
-- implementation, that is found to speak TLS, is refused with one error.
pub without_certificate_no_tls :
    {W : Type 0} (sys : System W) (args : Arguments) (node : ServiceNode) (ns : List ServiceNode)
    (any : Bool) (w : W) (k : Impl W) (before after : List Listener) (l : Listener)
    (d : DetectSession)
    → (args.crt_file_or_buffer ≡ none) ⊎ (args.key_file_or_buffer ≡ none)
    → All (λ (n : ServiceNode). n.protocol < 256) (node ∷ ns)
    → init sys (server args node ns any) (new w) ≡ returned true k
    → k.listeners ≡ before ++ l ∷ after
    → d.protocol ≡ l.protocol
    → on_detect success true d ≡ reported (own "detector" "detect" "not support ssl protocol")
without_certificate_no_tls sys args node ns any w k before after l d bare small e at same =
    let masked_all = started any e in
    let (n, lt, s) = All-at Masked before after l (subst (All Masked) at masked_all) in
    refuses n l d lt s same
  where
    off : unsupported_of args.crt_file_or_buffer args.key_file_or_buffer ≡ protocol_ssl
    off = no_certificate args.crt_file_or_buffer args.key_file_or_buffer bare

    count : ℕ
    count = max (length (node ∷ ns)) args.thread_count

    started :
        (any' : Bool)
        → init sys (server args node ns any') (new w) ≡ returned true k
        → All Masked k.listeners
    started true e' = OneStarted-Masked (node ∷ ns) count _ k small e' (
        subst (λ u. OneStarted u (node ∷ ns) count (init sys (server args node ns true) (new w)))
          off (any_valid_started sys args node ns w))
    started false e' = AllStarted-Masked (node ∷ ns) count _ k small e' (
        subst (λ u. AllStarted u (node ∷ ns) count (init sys (server args node ns false) (new w)))
          off (all_valid_started sys args node ns w))
