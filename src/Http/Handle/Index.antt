-- ===== src/Http/Handle/Index.antt =====
-- The segments of a target that ends in a slash, with the name of the index file behind it
-- (inc/http_utility.h).
use boost_web.Common.{
  ℕ, ◌≡◌, refl, sym, ◌∙◌, ap, subst, Bool, true, false, ◌||◌, [], ◌∷◌, ◌++◌, Bytes, Bool-cases, inl,
  inr, append_assoc, codes, tail, ==_iff,
}
use boost_web.Http.Target.{slash, is_front}
use boost_web.Http.Target.Segments.{
  is_separator, onto, segments, any_parent, any_parent-first, equals, segments_separator,
  segments_plain, parent, first, first-onto, tail-onto,
}
use boost_web.Http.Handle.{back}

first-append : (t x : Bytes) → first (segments (t ++ slash ∷ x)) ≡ first (segments t)
unfolding segments first
first-append [] x = refl
first-append (c ∷ cs) x = elim (Bool-cases (is_separator c)) [
  | inl e ↦ rw (segments_separator c (cs ++ slash ∷ x) e, segments_separator c cs e) refl
  | inr e ↦
      rw
        (
          segments_plain c (cs ++ slash ∷ x) e,
          segments_plain c cs e,
          first-onto c (segments (cs ++ slash ∷ x)),
          first-onto c (segments cs),
        )
        (ap (λ s. c ∷ s) (first-append cs x))
]

or_assoc : (a b c : Bool) → (a || (b || c)) ≡ ((a || b) || c)
or_assoc true b c = refl
or_assoc false b c = refl

by_tail :
    (t x : Bytes)
    → any_parent (tail (segments (t ++ slash ∷ x)))
      ≡ (any_parent (tail (segments t)) || any_parent (segments x))
    → any_parent (segments (t ++ slash ∷ x)) ≡ (any_parent (segments t) || any_parent (segments x))
by_tail t x e =
    sym (any_parent-first (segments (t ++ slash ∷ x)))
    ∙ ap (λ s. equals s parent || any_parent (tail (segments (t ++ slash ∷ x)))) (first-append t x)
    ∙ ap (λ b. equals (first (segments t)) parent || b) e
    ∙ or_assoc (equals (first (segments t)) parent) (any_parent (tail (segments t)))
        (any_parent (segments x))
    ∙ ap (λ b. b || any_parent (segments x)) (any_parent-first (segments t))

tail-append :
    (t x : Bytes)
    → any_parent (tail (segments (t ++ slash ∷ x)))
      ≡ (any_parent (tail (segments t)) || any_parent (segments x))
unfolding segments any_parent
tail-append [] x = refl
tail-append (c ∷ cs) x = elim (Bool-cases (is_separator c)) [
  | inl e ↦
      rw (segments_separator c (cs ++ slash ∷ x) e, segments_separator c cs e)
        (by_tail cs x (tail-append cs x))
  | inr e ↦
      rw
        (
          segments_plain c (cs ++ slash ∷ x) e,
          segments_plain c cs e,
          tail-onto c (segments (cs ++ slash ∷ x)),
          tail-onto c (segments cs),
        )
        (tail-append cs x)
]

-- What stands before and behind a slash has segments of its own.
pub any_parent-append :
    (t x : Bytes)
    → any_parent (segments (t ++ slash ∷ x)) ≡ (any_parent (segments t) || any_parent (segments x))
any_parent-append t x = by_tail t x (tail-append t x)

-- A text that ends in a slash is one with a slash behind it.
ends :
    (c : ℕ) (cs : Bytes)
    → is_front slash (back (c ∷ cs)) ≡ true
    → (t : Bytes) × (c ∷ cs ≡ t ++ slash ∷ [])
unfolding back
ends c [] e = ([], ap (λ x. x ∷ []) ((==_iff c slash).0 e))
ends c (d ∷ cs) e = let (t, p) = ends d cs e in (c ∷ t, ap (λ l. c ∷ l) p)

index_name : any_parent (segments (codes "index.html")) ≡ false
unfolding any_parent segments equals onto
index_name = refl

no_left : (a b : Bool) → (a || b) ≡ false → a ≡ false
no_left true b e = e
no_left false b e = refl

index-append :
    (t : Bytes)
    → any_parent (segments (t ++ slash ∷ [])) ≡ false
    → any_parent (segments ((t ++ slash ∷ []) ++ codes "index.html")) ≡ false
index-append t e =
    let left = no_left _ _ (sym (any_parent-append t []) ∙ e) in
    ap (λ l. any_parent (segments l)) (append_assoc t (slash ∷ []) (codes "index.html"))
    ∙ any_parent-append t (codes "index.html")
    ∙ ap (λ b. b || any_parent (segments (codes "index.html"))) left
    ∙ index_name

-- The name of the index file brings no "..".
pub index_segments :
    (c : ℕ) (cs : Bytes)
    → is_front slash (back (c ∷ cs)) ≡ true
    → any_parent (segments (c ∷ cs)) ≡ false
    → any_parent (segments (c ∷ cs ++ codes "index.html")) ≡ false
index_segments c cs e none_of =
    let (t, p) = ends c cs e in
    subst (λ l. any_parent (segments (l ++ codes "index.html")) ≡ false) (sym p)
      (index-append t (subst (λ l. any_parent (segments l) ≡ false) p none_of))
