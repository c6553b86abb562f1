-- ===== src/TestService/Ends.antt =====
-- The loop of parse_file_body (test/test_service.cpp) ends.
use boost_web.Common.{
  ◌%◌, ◌^◌, subst, ℕ, zero, suc, ◌+◌, ◌-◌, ◌≤◌, ◌<◌, ◌≡◌, refl, Bool, true, false, if_cases, List,
  [], ◌∷◌, ◌++◌, Option, none, some, Bytes, length, drop, arith,
}
use boost_web.Http.Target.{starts_with}
use boost_web.TestService.{
  shift, find, find_from, resume, at_boundary, content_to, content_from, iteration, before, loop,
  parse_file_body, crlf, crlf_crlf, next_boundary_head, first_boundary, Event,
}

pub length-drop : {A : Type 0} (n : ℕ) (xs : List A) → length (drop n xs) ≡ length xs - n
length-drop zero xs = omega arith
length-drop (suc n) [] = omega arith
length-drop (suc n) (x ∷ xs) = omega (arith, length-drop n xs)

starts_with-length : (cs p : Bytes) → starts_with cs p ≡ true → length p ≤ length cs
unfolding starts_with
starts_with-length cs [] e = omega arith
starts_with-length [] (x ∷ p) e = cc
starts_with-length (c ∷ cs) (x ∷ p) e = omega (arith, starts_with-length cs p (ground arith))

-- The pattern fits in from where it was found.
abbrev pub Fits : Bytes → ℕ → ℕ → Option ℕ → Type 0
Fits pattern low high none = Unit
Fits pattern low high (some i) = (low ≤ i) × (i + length pattern ≤ high)

shift-Fits :
    (pattern : Bytes) (n high : ℕ) (o : Option ℕ)
    → Fits pattern 0 high o
    → Fits pattern n (n + high) (shift n o)
unfolding shift
shift-Fits pattern n high none f = tt
shift-Fits pattern n high (some i) (_, f) = (omega arith, omega (arith, f))

later-Fits :
    (pattern cs : Bytes) (o : Option ℕ)
    → Fits pattern 0 (length cs) o
    → Fits pattern 0 (suc (length cs)) (shift 1 o)
unfolding shift
later-Fits pattern cs none f = tt
later-Fits pattern cs (some i) (_, f) = (omega arith, omega (arith, f))

find-Fits : (pattern text : Bytes) → Fits pattern 0 (length text) (find pattern text)
unfolding find
find-Fits pattern [] = tt
find-Fits pattern (c ∷ cs) =
    if_cases (Fits pattern 0 (suc (length cs))) (starts_with (c ∷ cs) pattern) (some 0)
      (shift 1 (find pattern cs))
      (λ starts. (omega arith, omega (arith, starts_with-length (c ∷ cs) pattern starts)))
      (λ _. later-Fits pattern cs (find pattern cs) (find-Fits pattern cs))

inside-Fits :
    (pattern : Bytes) (position size : ℕ) (o : Option ℕ)
    → 1 ≤ length pattern
    → Fits pattern position (position + (size - position)) o
    → Fits pattern position size o
inside-Fits pattern position size none n f = tt
inside-Fits pattern position size (some i) n (low, high) = (low, omega (arith, n, low, high))

pub find_from-Fits :
    (pattern text : Bytes) (position : ℕ)
    → 1 ≤ length pattern
    → Fits pattern position (length text) (find_from pattern text position)
unfolding find_from
find_from-Fits pattern text position n =
    inside-Fits pattern position (length text) (shift position (find pattern (drop position text)))
      n
      (shift-Fits pattern position (length text - position) (find pattern (drop position text)) (
        subst (λ size. Fits pattern 0 size (find pattern (drop position text)))
          (length-drop position text) (find-Fits pattern (drop position text))))

-- The next iteration, if there is one, starts further on, and this one did not start at the end.
Advances : ℕ → ℕ → List Event × Option ℕ → Type 0
Advances position size (events, none) = Unit
Advances position size (events, some next) = (position < next) × (position < size)

resume-Advances :
    (is_middle is_last : Bool) (content invalid : List Event) (next position size : ℕ)
    → position < next
    → position < size
    → Advances position size (resume is_middle is_last content invalid next)
unfolding resume Advances
resume-Advances true is_last content invalid next position size further inside = (further, inside)
resume-Advances false true content invalid next position size further inside = tt
resume-Advances false false content invalid next position size further inside = tt

at_boundary-Advances :
    (boundary body : Bytes) (index begin end position : ℕ)
    → position < begin
    → begin ≤ end
    → position < length body
    → Advances position (length body) (at_boundary boundary body index begin end)
unfolding at_boundary
at_boundary-Advances boundary body index begin end position further after_it inside =
    resume-Advances _ _ _ _ (end + length (next_boundary_head boundary ++ crlf)) position
      (length body) (omega (arith, further, after_it)) inside

content_to-Advances :
    (boundary body : Bytes) (index begin position : ℕ) (o : Option ℕ)
    → position < begin
    → position < length body
    → Fits (next_boundary_head boundary) begin (length body) o
    → Advances position (length body) (content_to boundary body index begin o)
unfolding content_to Advances
content_to-Advances boundary body index begin position none further inside f = (further, inside)
content_to-Advances boundary body index begin position (some end) further inside (low, high) =
    at_boundary-Advances boundary body index begin end position further low inside

content_from-Advances :
    (boundary body : Bytes) (index position : ℕ) (o : Option ℕ)
    → Fits crlf_crlf position (length body) o
    → Advances position (length body) (content_from boundary body index o)
unfolding content_from Advances
content_from-Advances boundary body index position none f = tt
content_from-Advances boundary body index position (some q) (low, high) =
    content_to-Advances boundary body index (q + 4) position
      (find_from (next_boundary_head boundary) body (q + 4)) (omega (arith, low))
      (omega (arith, low, high))
      (find_from-Fits (next_boundary_head boundary) body (q + 4) (omega arith))

before-some :
    (events : List Event) (o : Option (List Event))
    → (rest : List Event) × (o ≡ some rest)
    → (all : List Event) × (before events o ≡ some all)
unfolding before
before-some events none (rest, e) = cc
before-some events (some rest) e = (events ++ rest, refl)

-- The loop has come to its end, with what it printed.
abbrev pub Ended : Option (List Event) → Type 0
Ended o = (events : List Event) × (o ≡ some events)

no_position :
    (fuel : ℕ) (boundary body : Bytes) (index : ℕ) → Ended (loop fuel boundary body index none)
unfolding loop
no_position zero boundary body index = ([], refl)
no_position (suc fuel) boundary body index = ([], refl)

iteration_step :
    (fuel : ℕ) (boundary body : Bytes) (index position : ℕ) (r : List Event × Option ℕ)
    → length body - position < suc fuel
    → Advances position (length body) r
    → ((next : ℕ) → length body - next < fuel → Ended (loop fuel boundary body index (some next)))
    → Ended (before r.0 (loop fuel boundary body index r.1))
unfolding Advances
iteration_step fuel boundary body index position (events, none) enough a ih =
    before-some events (loop fuel boundary body index none) (no_position fuel boundary body index)
iteration_step fuel boundary body index position (events, some next) enough (further, inside) ih =
    before-some events (loop fuel boundary body index (some next))
      (ih next (omega (arith, enough, further, inside)))

loop-Ended :
    (fuel : ℕ) (boundary body : Bytes) (index position : ℕ)
    → length body - position < fuel
    → Ended (loop fuel boundary body index (some position))
unfolding loop iteration Advances
loop-Ended zero boundary body index position enough = absurd (omega (arith, enough))
loop-Ended (suc fuel) boundary body index position enough =
    let i = (index + 1) % 2 ^ 32 in
    iteration_step fuel boundary body i position (iteration boundary body i position) enough
      (content_from-Advances boundary body i position (find_from crlf_crlf body position)
        (find_from-Fits crlf_crlf body position (omega arith)))
      (λ next enough'. loop-Ended fuel boundary body i next enough')

from_start :
    (fuel : ℕ) (boundary body : Bytes) (o : Option ℕ)
    → length body < fuel
    → Ended (loop fuel boundary body 0 o)
from_start fuel boundary body none enough = no_position fuel boundary body 0
from_start fuel boundary body (some position) enough =
    loop-Ended fuel boundary body 0 position (omega (arith, enough))

-- With more fuel than the body has bytes, parse_file_body comes to its end, whatever the boundary and the
-- body.
pub parse_file_body-Ended :
    (fuel : ℕ) (boundary body : Bytes)
    → length body < fuel
    → Ended (parse_file_body fuel boundary body)
unfolding parse_file_body
parse_file_body-Ended fuel boundary body enough =
    from_start fuel boundary body (find_from (first_boundary boundary) body 0) enough
