-- ===== src/TestService/Sizes.antt =====
-- How much parse_file_body (test/test_service.cpp) prints of the files of a body.
use boost_web.Common.{
  ℕ, zero, suc, ◌+◌, ◌-◌, ◌%◌, ◌^◌, ◌≤◌, ◌<◌, ◌≡◌, refl, subst, Bool, true, false, List, [], ◌∷◌,
  ◌++◌, Option, none, some, Bytes, length, drop, arith, if_cases, ◌==◌,
}
use boost_web.TestService.{
  Event, file_name, file_content, invalid_boundary, take, substr, c_str, find_from, name_ending,
  name_from, resume, at_boundary, content_to, content_from, iteration, before, loop,
  parse_file_body, crlf, crlf_crlf, next_boundary_head, first_boundary,
}
use boost_web.TestService.Ends.{Fits, find_from-Fits, parse_file_body-Ended}

-- The bytes of the contents of files, among what is printed
abbrev pub content_size : List Event → ℕ
content_size [] = 0
content_size (file_name index name ∷ events) = content_size events
content_size (file_content index content ∷ events) = length content + content_size events
content_size (invalid_boundary text ∷ events) = content_size events

content_size-append :
    (xs ys : List Event) → content_size (xs ++ ys) ≡ content_size xs + content_size ys
content_size-append [] ys = omega arith
content_size-append (file_name index name ∷ xs) ys = content_size-append xs ys
content_size-append (file_content index content ∷ xs) ys = omega (arith, content_size-append xs ys)
content_size-append (invalid_boundary text ∷ xs) ys = content_size-append xs ys

length-take : (n : ℕ) (xs : Bytes) → length (take n xs) ≤ n
unfolding take
length-take zero xs = omega arith
length-take (suc n) [] = omega arith
length-take (suc n) (x ∷ xs) = omega (arith, length-take n xs)

length-c_str : (xs : Bytes) → length (c_str xs) ≤ length xs
unfolding c_str
length-c_str [] = omega arith
length-c_str (x ∷ xs) =
    if_cases (λ ys. length ys ≤ suc (length xs)) (x == 0) [] (x ∷ c_str xs) (λ _. omega arith)
      (λ _. omega (arith, length-c_str xs))

-- A piece of the body, as it is printed
piece : (body : Bytes) (position count : ℕ) → length (c_str (substr body position count)) ≤ count
unfolding substr
piece body position count =
    omega (
      arith,
      length-c_str (take count (drop position body)),
      length-take count (drop position body),
    )

-- What is printed of names has no content in it.
names_only : (body : Bytes) (index : ℕ) (o : Option ℕ) → content_size (name_from body index o) ≡ 0
unfolding name_from name_ending
names_only body index none = refl
names_only body index (some head) = ending (find_from _ body (head + 10))
  where
    ending : (o : Option ℕ) → content_size (name_ending body index (head + 10) o) ≡ 0
    ending none = refl
    ending (some end) = refl

-- The contents of an iteration at a position, and what it leaves of the body, are no more than it found.
Within : ℕ → ℕ → List Event × Option ℕ → Type 0
Within position size (events, none) = content_size events ≤ size - position
Within position size (events, some next) = content_size events + (size - next) ≤ size - position

resume-Within :
    (is_middle is_last : Bool) (index begin end next position size : ℕ) (content invalid : Bytes)
    → length content ≤ end - begin
    → position ≤ begin
    → begin ≤ end
    → end ≤ size
    → end ≤ next
    → Within position size (
        resume is_middle is_last
          (file_content index content ∷ [])
          (invalid_boundary invalid ∷ [])
          next)
unfolding resume Within
resume-Within true is_last index begin end next position size content invalid short p b e n =
    omega (arith, short, p, b, e, n)
resume-Within false true index begin end next position size content invalid short p b e n =
    omega (arith, short, p, b, e, n)
resume-Within false false index begin end next position size content invalid short p b e n =
    omega arith

at_boundary-Within :
    (boundary body : Bytes) (index begin end position : ℕ)
    → position ≤ begin
    → begin ≤ end
    → end ≤ length body
    → Within position (length body) (at_boundary boundary body index begin end)
unfolding at_boundary
at_boundary-Within boundary body index begin end position p b e =
    resume-Within _ _ index begin end (end + length (next_boundary_head boundary ++ crlf)) position
      (length body) (c_str (substr body begin (end - begin))) _ (piece body begin (end - begin)) p b
      e (omega arith)

content_to-Within :
    (boundary body : Bytes) (index begin position : ℕ) (o : Option ℕ)
    → position ≤ begin
    → Fits (next_boundary_head boundary) begin (length body) o
    → Within position (length body) (content_to boundary body index begin o)
unfolding content_to Within
content_to-Within boundary body index begin position none p f = omega (arith, p)
content_to-Within boundary body index begin position (some end) p (low, high) =
    at_boundary-Within boundary body index begin end position p low (omega (arith, high))

content_from-Within :
    (boundary body : Bytes) (index position : ℕ) (o : Option ℕ)
    → Fits crlf_crlf position (length body) o
    → Within position (length body) (content_from boundary body index o)
unfolding content_from Within
content_from-Within boundary body index position none f = omega arith
content_from-Within boundary body index position (some q) (low, high) =
    content_to-Within boundary body index (q + 4) position
      (find_from (next_boundary_head boundary) body (q + 4)) (omega (arith, low))
      (find_from-Fits (next_boundary_head boundary) body (q + 4) (omega arith))

-- What is printed, if the loop has come to its end
Bounded : ℕ → Option (List Event) → Type 0
Bounded bound none = Unit
Bounded bound (some events) = content_size events ≤ bound

before-Bounded :
    (events : List Event) (o : Option (List Event)) (bound rest : ℕ)
    → content_size events + rest ≤ bound
    → Bounded rest o
    → Bounded bound (before events o)
unfolding before Bounded
before-Bounded events none bound rest fits b = tt
before-Bounded events (some later) bound rest fits b =
    omega (arith, content_size-append events later, fits, b)

nothing_left :
    (fuel bound : ℕ) (boundary body : Bytes) (index : ℕ)
    → Bounded bound (loop fuel boundary body index none)
unfolding loop Bounded
nothing_left zero bound boundary body index = omega arith
nothing_left (suc fuel) bound boundary body index = omega arith

after_iteration :
    (fuel : ℕ) (boundary body : Bytes) (index position : ℕ) (names : List Event)
    (r : List Event × Option ℕ)
    → content_size names ≡ 0
    → Within position (length body) r
    → ((next : ℕ) → Bounded (length body - next) (loop fuel boundary body index (some next)))
    → Bounded (length body - position) (before (names ++ r.0) (loop fuel boundary body index r.1))
unfolding Within
after_iteration fuel boundary body index position names (events, none) none_there within ih =
    before-Bounded (names ++ events) (loop fuel boundary body index none) (length body - position) 0
      (omega (arith, content_size-append names events, none_there, within))
      (nothing_left fuel 0 boundary body index)
after_iteration fuel boundary body index position names (events, some next) none_there within ih =
    before-Bounded (names ++ events) (loop fuel boundary body index (some next))
      (length body - position) (length body - next)
      (omega (arith, content_size-append names events, none_there, within)) (ih next)

loop-Bounded :
    (fuel : ℕ) (boundary body : Bytes) (index position : ℕ)
    → Bounded (length body - position) (loop fuel boundary body index (some position))
unfolding loop iteration Bounded
loop-Bounded zero boundary body index position = tt
loop-Bounded (suc fuel) boundary body index position =
    let i = (index + 1) % 2 ^ 32 in
    after_iteration fuel boundary body i position (name_from body i (find_from _ body position))
      (content_from boundary body i (find_from crlf_crlf body position))
      (names_only body i (find_from _ body position))
      (content_from-Within boundary body i position (find_from crlf_crlf body position)
        (find_from-Fits crlf_crlf body position (omega arith)))
      (λ next. loop-Bounded fuel boundary body i next)

from_start :
    (fuel : ℕ) (boundary body : Bytes) (o : Option ℕ)
    → Bounded (length body) (loop fuel boundary body 0 o)
unfolding Bounded
from_start fuel boundary body none = nothing_left fuel (length body) boundary body 0
from_start fuel boundary body (some position) =
    weaker (loop fuel boundary body 0 (some position)) (loop-Bounded fuel boundary body 0 position)
  where
    weaker :
        (o : Option (List Event)) → Bounded (length body - position) o → Bounded (length body) o
    weaker none b = tt
    weaker (some events) b = omega (arith, b)

-- With more fuel than the body has bytes, parse_file_body comes to its end, and the contents of
-- files that it prints are together no longer than the body.
pub parse_file_body-Bounded :
    (fuel : ℕ) (boundary body : Bytes)
    → length body < fuel
    → (events : List Event) × (parse_file_body fuel boundary body ≡ some events)
      × (content_size events ≤ length body)
unfolding parse_file_body Bounded
parse_file_body-Bounded fuel boundary body enough =
    let (events, e) = parse_file_body-Ended fuel boundary body enough in
    let bounded = from_start fuel boundary body (find_from (first_boundary boundary) body 0) in
    (events, e, subst (Bounded (length body)) e bounded)
