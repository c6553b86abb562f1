-- ===== src/Http/Target/Segments.antt =====
-- The segments of a target, between its separators, and what the search for "/../" says of them.
use boost_web.Common.{
  ℕ, ◌≡◌, refl, ap, Bool, true, false, not, ◌&&◌, ◌||◌, ◌==◌, if◌then◌else◌, List, [], ◌∷◌, ◌++◌,
  Bytes, Bool-cases, inl, inr, tail, arith, head?, some, sym, ◌∙◌,
}
use boost_web.Http.Target.{
  slash, backslash, dot, slashed, replace, starts_with, contains, is_legal, is_front,
  parent_pattern,
}

abbrev pub is_separator : ℕ → Bool
is_separator c = c == slash || c == backslash

-- The char goes to the first segment.
unfoldable pub onto : ℕ → List Bytes → List Bytes
onto c [] = (c ∷ []) ∷ []
onto c (s ∷ ss) = (c ∷ s) ∷ ss

-- The target cut at each `/` and each `\`.
unfoldable pub segments : Bytes → List Bytes
unfolding onto
segments [] = [] ∷ []
segments (c ∷ cs) = if is_separator c then [] ∷ segments cs else onto c (segments cs)

unfoldable pub equals : Bytes → Bytes → Bool
equals [] [] = true
equals (x ∷ xs) (y ∷ ys) = x == y && equals xs ys
equals _ _ = false

-- `".."`
abbrev pub parent : Bytes
parent = dot ∷ dot ∷ []

unfoldable pub any_parent : List Bytes → Bool
unfolding equals
any_parent [] = false
any_parent (s ∷ ss) = equals s parent || any_parent ss

unfoldable pub first : List Bytes → Bytes
first [] = []
first (s ∷ ss) = s

plain : Bytes → Bool
plain [] = true
plain (c ∷ cs) = not (is_separator c) && plain cs

pub first-onto : (c : ℕ) (ss : List Bytes) → first (onto c ss) ≡ c ∷ first ss
unfolding first onto
first-onto c [] = refl
first-onto c (s ∷ ss) = refl

pub tail-onto : (c : ℕ) (ss : List Bytes) → tail (onto c ss) ≡ tail ss
unfolding onto
tail-onto c [] = refl
tail-onto c (s ∷ ss) = refl

slashed_separator : (c : ℕ) → is_separator c ≡ true → slashed c ≡ slash
slashed_separator c h = ground arith

slashed_plain : (c : ℕ) → is_separator c ≡ false → slashed c ≡ c
slashed_plain c h = ground arith

plain_head : (x : ℕ) (p : Bytes) → plain (x ∷ p) ≡ true → is_separator x ≡ false
unfolding plain
plain_head x p h = ground arith

plain_tail : (x : ℕ) (p : Bytes) → plain (x ∷ p) ≡ true → plain p ≡ true
unfolding plain
plain_tail x p h = ground arith

separator_differs :
    (c x : ℕ) → is_separator x ≡ false → is_separator c ≡ true → slashed c == x ≡ false
separator_differs c x h e = ground arith

pub segments_separator :
    (c : ℕ) (cs : Bytes) → is_separator c ≡ true → segments (c ∷ cs) ≡ [] ∷ segments cs
unfolding segments
segments_separator c cs e = rw e refl

pub segments_plain :
    (c : ℕ) (cs : Bytes) → is_separator c ≡ false → segments (c ∷ cs) ≡ onto c (segments cs)
unfolding segments
segments_plain c cs e = rw e refl

-- A first segment is found by comparing the text with it and a slash.
first-starts_with :
    (p cs : Bytes)
    → plain p ≡ true
    → starts_with (replace (cs ++ slash ∷ [])) (p ++ slash ∷ []) ≡ equals (first (segments cs)) p
unfolding starts_with replace equals segments first
first-starts_with [] [] h = refl
first-starts_with [] (c ∷ cs) h = elim (Bool-cases (is_separator c)) [
  | inl e ↦ rw (slashed_separator c e, segments_separator c cs e) refl
  | inr e ↦ rw (slashed_plain c e, segments_plain c cs e, first-onto c (segments cs)) (ground arith)
]
first-starts_with (x ∷ p) [] h = let e = plain_head x p h in ground arith
first-starts_with (x ∷ p) (c ∷ cs) h = elim (Bool-cases (is_separator c)) [
  | inl e ↦ rw (segments_separator c cs e) (
      ap (λ b. b && starts_with (replace (cs ++ slash ∷ [])) (p ++ slash ∷ []))
        (separator_differs c x (plain_head x p h) e))
  | inr e ↦
      rw (slashed_plain c e, segments_plain c cs e, first-onto c (segments cs))
        (ap (λ b. c == x && b) (first-starts_with p cs (plain_tail x p h)))
]

pub any_parent-first :
    (ss : List Bytes) → (equals (first ss) parent || any_parent (tail ss)) ≡ any_parent ss
unfolding first any_parent equals
any_parent-first [] = refl
any_parent-first (s ∷ ss) = refl

parent-plain : plain parent ≡ true
unfolding plain
parent-plain = refl

no_start :
    (c : ℕ) (cs p : Bytes) → is_separator c ≡ false → starts_with (c ∷ cs) (slash ∷ p) ≡ false
unfolding starts_with
no_start c cs p e = ground arith

-- The search for "/../" finds the segments "..", but for the first.
contains-parent_pattern :
    (cs : Bytes)
    → contains (replace (cs ++ slash ∷ [])) parent_pattern ≡ any_parent (tail (segments cs))
unfolding contains replace segments any_parent starts_with
contains-parent_pattern [] = refl
contains-parent_pattern (c ∷ cs) = elim (Bool-cases (is_separator c)) [
  | inl e ↦
      rw
        (
          slashed_separator c e,
          segments_separator c cs e,
          sym (any_parent-first (segments cs)),
          sym (contains-parent_pattern cs),
          sym (first-starts_with parent cs parent-plain),
        )
        refl
  | inr e ↦
      rw
        (
          slashed_plain c e,
          segments_plain c cs e,
          tail-onto c (segments cs),
          sym (contains-parent_pattern cs),
          no_start c (replace (cs ++ slash ∷ [])) (dot ∷ dot ∷ slash ∷ []) e,
        )
        refl
]

front_separator : (c : ℕ) → is_front slash (some c) ≡ true → is_separator c ≡ true
front_separator c e = ground arith

front_segments :
    (c : ℕ) (cs : Bytes)
    → is_front slash (some c) ≡ true
    → any_parent (tail (segments (c ∷ cs))) ≡ any_parent (segments (c ∷ cs))
unfolding any_parent equals
front_segments c cs e = rw (segments_separator c cs (front_separator c e)) refl

guarded : (a b b' : Bool) → (a ≡ true → b ≡ b') → not (not a || b) ≡ (a && not b')
guarded true b b' e = ap not (e refl)
guarded false b b' e = refl

-- handle_request goes on with a target exactly if it begins with a `/`, and none of the segments between
-- its separators `/` and `\` is "..".
pub is_legal-segments :
    (target : Bytes)
    → is_legal target ≡ (is_front slash (head? target) && not (any_parent (segments target)))
unfolding is_legal
is_legal-segments [] = refl
is_legal-segments (c ∷ cs) =
    guarded (is_front slash (some c)) (contains (replace (c ∷ cs ++ slash ∷ [])) parent_pattern)
      (any_parent (segments (c ∷ cs)))
      (λ e. contains-parent_pattern (c ∷ cs) ∙ front_segments c cs e)
