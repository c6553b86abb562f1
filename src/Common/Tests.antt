-- ===== src/Common/Tests.antt =====
-- Boolean tests on numbers, `if`, the wrap-around of std::size_t, and tables over a byte.
use Prim.Native.Nat.{ℕ, zero, suc, ◌+◌, ◌-◌, ◌%◌, ◌^◌, ◌<◌, compare, Ordering}
use mathlib.Core.Path.{◌≡◌, refl}
use mathlib.Core.Logic.{◌⊎◌, inl, inr, ◌↔◌}
use mathlib.Core.Bool.{Bool, true, false, ◌&&◌}
use mathlib.Core.Option.{Option, none, some}
use native.Mathlib.Omega.{arith}

abbrev pub ltb : ℕ → ℕ → Bool
ltb a b = elim (compare a b) [ Ordering.lt ↦ true | _ ↦ false ]

abbrev pub leb : ℕ → ℕ → Bool
leb a b = elim (compare a b) [ Ordering.gt ↦ false | _ ↦ true ]

infix 50 ◌==◌
abbrev pub ◌==◌ : ℕ → ℕ → Bool
a == b = elim (compare a b) [ Ordering.eq ↦ true | _ ↦ false ]

infix 1 if◌then◌else◌
abbrev pub if◌then◌else◌ {ℓ} : {A : Type ℓ} → Bool → A → A → A
if true then x else y = x
if false then x else y = y

pub Bool-cases : (b : Bool) → (b ≡ true) ⊎ (b ≡ false)
Bool-cases true = inl refl
Bool-cases false = inr refl

pub Option-cases {ℓ} : {A : Type ℓ} (o : Option A) → (o ≡ none) ⊎ ((a : A) × (o ≡ some a))
Option-cases none = inl refl
Option-cases (some a) = inr (a, refl)

pub ==_iff : (a b : ℕ) → (a == b ≡ true) ↔ (a ≡ b)
==_iff a b = (λ h. ground arith, λ h. ground arith)

pub ==-same : (n : ℕ) → (n == n) ≡ true
==-same n = (==_iff n n).1 refl

pub both : (b c : Bool) → (b && c) ≡ true → (b ≡ true) × (c ≡ true)
both true c e = (refl, e)
both false c e = cc

pub both_if : (b c : Bool) → (if b then c else false) ≡ true → (b ≡ true) × (c ≡ true)
both_if true c e = (refl, e)
both_if false c e = cc

-- std::size_t is taken to be 64 bits wide.
abbrev pub size_mod : ℕ
size_mod = 2 ^ 64

-- ++n and --n on a std::size_t.
abbrev pub increment : ℕ → ℕ
increment n = (n + 1) % size_mod

abbrev pub decrement : ℕ → ℕ
decrement n = (n + (size_mod - 1)) % size_mod

-- A table of answers, all of them true.
unfoldable pub holds_up_to : (ℕ → Bool) → ℕ → Bool
holds_up_to test zero = true
holds_up_to test (suc k) = if test k then holds_up_to test k else false

-- One entry of such a table.
pub holds_at :
    (test : ℕ → Bool) (bound entry : ℕ)
    → entry < bound
    → holds_up_to test bound ≡ true
    → test entry ≡ true
unfolding holds_up_to
holds_at test zero entry below all_true = absurd (omega arith)
holds_at test (suc k) entry below all_true = let earlier = holds_at test k entry in ground arith

-- A property of both branches is one of the whole.
pub if_cases {ℓ κ} :
    {A : Type ℓ} (P : A → Type κ) (b : Bool) (x y : A)
    → (b ≡ true → P x)
    → (b ≡ false → P y)
    → P (if b then x else y)
if_cases P true x y p q = p refl
if_cases P false x y p q = q refl

pub map_if {ℓ κ} :
    {A : Type ℓ} {B : Type κ} (f : A → B) (b : Bool) (x y : A)
    → (if b then f x else f y) ≡ f (if b then x else y)
map_if f true x y = refl
map_if f false x y = refl
