-- ===== src/TestService/Multipart/Find.antt =====
-- Searches of parse_file_body (test/test_service.cpp) in a text that is known in pieces.
use boost_web.Common.{
  ℕ, suc, ◌+◌, ◌≤◌, ◌≡◌, refl, sym, ap, ◌∙◌, Bool, true, false, [], ◌∷◌, ◌++◌, Option, none, some,
  Bytes, length, length-append, append_assoc, arith, if◌then◌else◌, ◌&&◌, ◌==◌, ==-same,
}
use boost_web.Http.Target.{starts_with}
use boost_web.Http.Target.Segments.{equals}
use boost_web.TestService.{find, find_from, shift, substr, take}
use boost_web.TestService.Answer.{drop-append}
use boost_web.TestService.Multipart.{Without}

starts_with-append :
    (text pattern rest : Bytes)
    → length pattern ≤ length text
    → starts_with (text ++ rest) pattern ≡ starts_with text pattern
unfolding starts_with
starts_with-append text [] rest fits = refl
starts_with-append [] (x ∷ pattern) rest fits = absurd (omega (arith, fits))
starts_with-append (c ∷ text) (x ∷ pattern) rest fits =
    ap (λ b. (c == x) && b) (starts_with-append text pattern rest (omega (arith, fits)))

pub starts_with_self : (pattern rest : Bytes) → starts_with (pattern ++ rest) pattern ≡ true
unfolding starts_with
starts_with_self [] rest = refl
starts_with_self (x ∷ pattern) rest = rw (==-same x, starts_with_self pattern rest) refl

abbrev index_of : Option ℕ → ℕ
index_of none = 0
index_of (some i) = i

shift-earlier : (o : Option ℕ) (n : ℕ) → shift 1 o ≡ some (suc n) → o ≡ some n
unfolding shift
shift-earlier none n e = cc
shift-earlier (some i) n e = let e' : 1 + i ≡ suc n = ap index_of e in ap some (omega (arith, e'))

-- The first place, where it is not this one
later_place :
    (b : Bool) (o : Option ℕ) (n : ℕ)
    → (if b then some 0 else shift 1 o) ≡ some (suc n)
    → (b ≡ false) × (o ≡ some n)
later_place true o n e = let e' : 0 ≡ suc n = ap index_of e in absurd (omega (arith, e'))
later_place false o n e = (refl, shift-earlier o n e)

find-Without :
    (pattern text rest : Bytes)
    → 1 ≤ length pattern
    → Without pattern text
    → find pattern (text ++ (pattern ++ rest)) ≡ some (length text)
unfolding find shift
find-Without [] text rest pattern e = absurd (omega (arith, pattern))
find-Without (x ∷ p) [] rest pattern e = rw (starts_with_self (x ∷ p) rest) refl
find-Without (x ∷ p) (c ∷ text) rest pattern e =
    let (elsewhere, e') =
      later_place (starts_with (c ∷ (text ++ x ∷ p)) (x ∷ p)) (find (x ∷ p) (text ++ x ∷ p))
        (length text) e in
    let here : starts_with (c ∷ (text ++ (x ∷ p ++ rest))) (x ∷ p) ≡ false =
      ap (λ t. starts_with (c ∷ t) (x ∷ p)) (sym (append_assoc text (x ∷ p) rest))
      ∙ starts_with-append (c ∷ (text ++ x ∷ p)) (x ∷ p) rest
          (omega (arith, length-append text (x ∷ p)))
      ∙ elsewhere in
    let there = find-Without (x ∷ p) text rest pattern e' in
    rw (here, there) (ap some (omega arith))

-- A search that starts after `pre` finds the pattern behind `text`.
pub find_from-Without :
    (body pre text pattern rest : Bytes) (position : ℕ)
    → body ≡ pre ++ (text ++ (pattern ++ rest))
    → position ≡ length pre
    → 1 ≤ length pattern
    → Without pattern text
    → find_from pattern body position ≡ some (length (pre ++ text))
unfolding find_from shift
find_from-Without body pre text pattern rest position split start some_pattern without =
    rw
      (
        split,
        start,
        drop-append pre (text ++ (pattern ++ rest)),
        find-Without pattern text rest some_pattern without,
      )
      (ap some (sym (length-append pre text)))

take-append : (xs ys : Bytes) → take (length xs) (xs ++ ys) ≡ xs
unfolding take
take-append [] ys = refl
take-append (x ∷ xs) ys = ap (λ zs. x ∷ zs) (take-append xs ys)

-- The piece of a text between two others
pub substr-append :
    (body pre text rest : Bytes) (position count : ℕ)
    → body ≡ pre ++ (text ++ rest)
    → position ≡ length pre
    → count ≡ length text
    → substr body position count ≡ text
unfolding substr
substr-append body pre text rest position count split start size =
    rw (split, start, size, drop-append pre (text ++ rest)) (take-append text rest)

pub equals-append : (xs ys zs : Bytes) → equals (xs ++ ys) (xs ++ zs) ≡ equals ys zs
unfolding equals
equals-append [] ys zs = refl
equals-append (x ∷ xs) ys zs = rw (==-same x) (equals-append xs ys zs)
