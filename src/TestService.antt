-- ===== src/TestService.antt =====
-- test/test_service.cpp: the search for the files of a multipart body.
pub mod Ends
pub mod Sizes
pub mod Start
pub mod Chat
pub mod Request
pub mod Answer
pub mod Multipart
use boost_web.Common.{
  ℕ, zero, suc, ◌+◌, ◌%◌, ◌^◌, Bool, if◌then◌else◌, List, [], ◌∷◌, ◌++◌, Option, none, some, Bytes,
  codes, length, drop, ◌-◌, ◌==◌,
}
use boost_web.Http.Target.{starts_with}
use boost_web.Http.Target.Segments.{equals}

unfoldable pub shift : ℕ → Option ℕ → Option ℕ
shift n none = none
shift n (some i) = some (n + i)

-- `text.find(pattern)`, of a pattern that is not empty
unfoldable pub find : Bytes → Bytes → Option ℕ
unfolding shift
find pattern [] = none
find pattern (c ∷ cs) = if starts_with (c ∷ cs) pattern then some 0 else shift 1 (find pattern cs)

-- `text.find(pattern, position)`
unfoldable pub find_from : Bytes → Bytes → ℕ → Option ℕ
unfolding find shift
find_from pattern text position = shift position (find pattern (drop position text))

unfoldable pub take : ℕ → Bytes → Bytes
take zero cs = []
take (suc n) [] = []
take (suc n) (c ∷ cs) = c ∷ take n cs

-- `text.substr(position, count)`
unfoldable pub substr : Bytes → ℕ → ℕ → Bytes
unfolding take
substr text position count = take count (drop position text)

abbrev pub crlf : Bytes
crlf = 13 ∷ 10 ∷ []

abbrev pub crlf_crlf : Bytes
crlf_crlf = 13 ∷ 10 ∷ 13 ∷ 10 ∷ []

abbrev pub first_boundary : Bytes → Bytes
first_boundary boundary = codes "--" ++ boundary ++ crlf

abbrev pub next_boundary_head : Bytes → Bytes
next_boundary_head boundary = crlf ++ codes "--" ++ boundary

-- What `%s` prints of `text.c_str()`: the text up to its first NUL.
unfoldable pub c_str : Bytes → Bytes
c_str [] = []
c_str (c ∷ cs) = let rest = c_str cs in if c == 0 then [] else c ∷ rest

-- What is printed of a file.
pub data Event : Type 0 where
  file_name : ℕ → Bytes → Event
  file_content : ℕ → Bytes → Event
  invalid_boundary : Bytes → Event

unfoldable pub name_ending : Bytes → ℕ → ℕ → Option ℕ → List Event
unfolding substr c_str
name_ending body index begin none = []
name_ending body index begin (some end) =
    file_name index (c_str (substr body begin (end - begin))) ∷ []

unfoldable pub name_from : Bytes → ℕ → Option ℕ → List Event
unfolding name_ending find_from
name_from body index none = []
name_from body index (some head) =
    let begin = head + length (codes "filename=\"") in
    name_ending body index begin (find_from (codes "\"") body begin)

-- By the tests for the middle and for the last boundary
unfoldable pub resume : Bool → Bool → List Event → List Event → ℕ → List Event × Option ℕ
resume is_middle is_last content invalid next =
    if is_middle then (content, some next) else if is_last then (content, none) else (invalid, none)

-- What an iteration prints, and where the next one starts, if there is one.
unfoldable pub at_boundary : Bytes → Bytes → ℕ → ℕ → ℕ → List Event × Option ℕ
unfolding substr equals c_str
at_boundary boundary body index begin end =
    let head = next_boundary_head boundary in
    let next_boundary = head ++ substr body (end + length head) 2 in
    resume (equals next_boundary (head ++ crlf)) (equals next_boundary (head ++ codes "--"))
      (file_content index (c_str (substr body begin (end - begin))) ∷ [])
      (invalid_boundary (c_str next_boundary) ∷ []) (end + length (head ++ crlf))

unfoldable pub content_to : Bytes → Bytes → ℕ → ℕ → Option ℕ → List Event × Option ℕ
unfolding at_boundary
content_to boundary body index begin none = ([], some begin)
content_to boundary body index begin (some end) = at_boundary boundary body index begin end

unfoldable pub content_from : Bytes → Bytes → ℕ → Option ℕ → List Event × Option ℕ
unfolding content_to find_from
content_from boundary body index none = ([], none)
content_from boundary body index (some position) =
    let begin = position + length crlf_crlf in
    content_to boundary body index begin (find_from (next_boundary_head boundary) body begin)

-- One iteration, at a position
unfoldable pub iteration : Bytes → Bytes → ℕ → ℕ → List Event × Option ℕ
unfolding name_from content_from find_from
iteration boundary body index position =
    let names = name_from body index (find_from (codes "filename=\"") body position) in
    let (events, next) = content_from boundary body index (find_from crlf_crlf body position) in
    (names ++ events, next)

unfoldable pub before : List Event → Option (List Event) → Option (List Event)
before events none = none
before events (some rest) = some (events ++ rest)

-- The loop, with fuel: none is that it has not ended.
unfoldable pub loop : ℕ → Bytes → Bytes → ℕ → Option ℕ → Option (List Event)
unfolding before iteration
loop fuel boundary body index none = some []
loop zero boundary body index (some position) = none
loop (suc fuel) boundary body index (some position) =
    let i = (index + 1) % 2 ^ 32 in
    let (events, next) = iteration boundary body i position in
    before events (loop fuel boundary body i next)

-- TestService::parse_file_body
unfoldable pub parse_file_body : ℕ → Bytes → Bytes → Option (List Event)
unfolding loop find_from
parse_file_body fuel boundary body =
    loop fuel boundary body 0 (find_from (first_boundary boundary) body 0)
