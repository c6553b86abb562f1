-- ===== src/TestService/Multipart/RoundTrip.antt =====
-- parse_file_body (test/test_service.cpp) reads what was written as Multipart has it.
use boost_web.Common.{
  ℕ, zero, suc, ◌+◌, ◌%◌, ◌^◌, ◌<◌, ◌≡◌, refl, ap, ◌∙◌, List, [], ◌∷◌, ◌++◌, Option, none, some,
  Bytes, codes, length, All, arith, if_cases, ◌==◌, inl, inr,
}
use boost_web.TestService.{
  Event, file_name, file_content, c_str, crlf, first_boundary, find, find_from, shift, iteration,
  before, loop, parse_file_body,
}
use boost_web.TestService.Multipart.{Part, followed, encode, encode_rest, Plain, listed, Shows}
use boost_web.TestService.Multipart.Find.{starts_with_self}
use boost_web.TestService.Multipart.Reading.{
  part_read, ended-crlf, ended-dashes, next_start, next_start-length, behind_mark, up_to_boundary,
}

loop-none :
    (fuel : ℕ) (boundary body : Bytes) (index : ℕ) → loop fuel boundary body index none ≡ some []
unfolding loop
loop-none zero boundary body index = refl
loop-none (suc fuel) boundary body index = refl

loop-step :
    (fuel : ℕ) (boundary body : Bytes) (index position : ℕ) (events : List Event) (next : Option ℕ)
    → iteration boundary body ((index + 1) % 2 ^ 32) position ≡ (events, next)
    → loop (suc fuel) boundary body index (some position)
      ≡ before events (loop fuel boundary body ((index + 1) % 2 ^ 32) next)
unfolding loop
loop-step fuel boundary body index position events next e =
    ap (λ r. before r.0 (loop fuel boundary body ((index + 1) % 2 ^ 32) r.1)) e

loop-listed :
    (boundary body pre lead : Bytes) (p : Part) (ps : List Part) (position index fuel : ℕ)
    → body ≡ pre ++ (lead ++ followed p (encode_rest boundary ps))
    → position ≡ length pre
    → Plain boundary lead p
    → All (Plain boundary []) ps
    → length ps < fuel
    → loop fuel boundary body index (some position) ≡ some (listed index (p ∷ ps))
unfolding before
loop-listed boundary body pre lead p ps position index zero split start plain plains enough =
    absurd (omega (arith, enough))
loop-listed boundary body pre lead p [] position index (suc fuel) split start plain plains enough =
    let i = (index + 1) % 2 ^ 32 in
    loop-step fuel boundary body index position
      (file_name i (c_str p.name) ∷ file_content i (c_str p.content) ∷ []) none
      (part_read boundary body pre lead p (codes "--") [] position split start plain refl i
        ∙ ap (λ end. (file_name i (c_str p.name) ∷ end.0, end.1))
            (ended-dashes boundary i p.content (next_start boundary pre lead p)))
    ∙ ap (before (file_name i (c_str p.name) ∷ file_content i (c_str p.content) ∷ []))
        (loop-none fuel boundary body i)
loop-listed boundary body pre lead p (q ∷ ps) position index (suc fuel) split start plain plains
      enough =
    let i = (index + 1) % 2 ^ 32 in
    let next = next_start boundary pre lead p in
    loop-step fuel boundary body index position
      (file_name i (c_str p.name) ∷ file_content i (c_str p.content) ∷ []) (some next)
      (part_read boundary body pre lead p crlf (followed q (encode_rest boundary ps)) position split
          start plain refl i
        ∙ ap (λ end. (file_name i (c_str p.name) ∷ end.0, end.1))
            (ended-crlf boundary i p.content next))
    ∙ ap (before (file_name i (c_str p.name) ∷ file_content i (c_str p.content) ∷ [])) (
        loop-listed boundary body (up_to_boundary boundary pre lead p ++ crlf) [] q ps next i fuel
          (split ∙ behind_mark boundary pre lead p crlf (followed q (encode_rest boundary ps)))
          (next_start-length boundary pre lead p) plains.0 plains.1 (omega (arith, enough)))

longer : (c : ℕ) (cs shown : Bytes) → 0 < c → Shows cs shown → Shows (c ∷ cs) (c ∷ shown)
longer c cs shown positive (nonzero, inl all) = ((positive, nonzero), inl (ap (λ xs. c ∷ xs) all))
longer c cs shown positive (nonzero, inr (rest, e)) =
    ((positive, nonzero), inr (rest, ap (λ xs. c ∷ xs) e))

c_str-Shows : (text : Bytes) → Shows text (c_str text)
unfolding c_str
c_str-Shows [] = (tt, inl refl)
c_str-Shows (c ∷ cs) =
    if_cases (Shows (c ∷ cs)) (c == 0) [] (c ∷ c_str cs)
      (λ zero_first. (tt, inr (cs, ap (λ n. n ∷ cs) (ground (arith, zero_first)))))
      (λ other. longer c cs (c_str cs) (ground (arith, other)) (c_str-Shows cs))

-- What parse_file_body prints of a body that was written of one or more parts, with more fuel than
-- there are parts after the first: the name and the content of each file, each up to its first
-- NUL, or all of it where there is none, in order and numbered from 1 as 32-bit numbers, where the
-- first `filename="` after the start of a part is the one that opens its file name, the name has
-- no quote, the first blank line after the start of a part is the one that ends its header, and no
-- content has the boundary in it or across its end.
pub parse_file_body-encode :
    (boundary : Bytes) (p : Part) (ps : List Part) (fuel : ℕ)
    → Plain boundary (first_boundary boundary) p
    → All (Plain boundary []) ps
    → length ps < fuel
    → ((text : Bytes) → Shows text (c_str text))
      × (parse_file_body fuel boundary (encode boundary p ps) ≡ some (listed 0 (p ∷ ps)))
unfolding parse_file_body find_from find shift
parse_file_body-encode boundary p ps fuel plain plains enough =
    let body = encode boundary p ps in
    let prints =
      loop-listed boundary body [] (first_boundary boundary) p ps 0 0 fuel refl refl plain plains
        enough in
    (
      c_str-Shows,
      rw (starts_with_self (first_boundary boundary) (followed p (encode_rest boundary ps))) prints,
    )
