-- ===== src/Http/Target.antt =====
-- The test of the request target in handle_request (inc/http_utility.h), and path_catenate
-- (src/http_utility.cpp). A char is its code, 47 for `/`, 92 for `\` and 46 for `.`.
pub mod Segments
pub mod Root
use boost_web.Common.{
  ℕ, Bool, true, false, not, ◌&&◌, ◌||◌, ◌==◌, if◌then◌else◌, List, [], ◌∷◌, ◌++◌, Option, none,
  some, Bytes, map, head?,
}

abbrev pub slash : ℕ
slash = 47

abbrev pub backslash : ℕ
backslash = 92

abbrev pub dot : ℕ
dot = 46

-- std::replace(…, '\\', '/'), on one char
abbrev pub slashed : ℕ → ℕ
slashed c = if c == backslash then slash else c

unfoldable pub replace : Bytes → Bytes
replace [] = []
replace (c ∷ cs) = slashed c ∷ replace cs

unfoldable pub starts_with : Bytes → Bytes → Bool
starts_with cs [] = true
starts_with [] (p ∷ ps) = false
starts_with (c ∷ cs) (p ∷ ps) = c == p && starts_with cs ps

-- `std::string::npos != text.find(pattern)`, of a pattern that is not empty
unfoldable pub contains : Bytes → Bytes → Bool
contains [] pattern = false
contains (c ∷ cs) pattern = starts_with (c ∷ cs) pattern || contains cs pattern

-- `"/../"`
abbrev pub parent_pattern : Bytes
parent_pattern = slash ∷ dot ∷ dot ∷ slash ∷ []

abbrev pub is_front : ℕ → Option ℕ → Bool
is_front c none = false
is_front c (some front) = front == c

-- What handle_request goes on with: not the condition of `Illegal request-target`.
unfoldable pub is_legal : Bytes → Bool
is_legal target = not (
    not (is_front slash (head? target)) || contains (replace (target ++ slash ∷ [])) parent_pattern)

-- path_catenate
unfoldable pub path_catenate : Bytes → Bytes → Bytes
path_catenate base path = base ++ path
