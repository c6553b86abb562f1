-- ===== src/Http/Mime.antt =====
-- MimeType and get_mime_type (src/http_utility.cpp). A char is its code.
pub mod Table
pub mod Types
pub mod Case
use boost_web.Common.{
  ℕ, ◌+◌, Bool, true, false, ◌&&◌, ◌||◌, ◌==◌, leb, if◌then◌else◌, String, List, [], ◌∷◌, ◌++◌,
  Option, none, some, Bytes, codes,
}
use boost_web.Http.Target.{slash, dot, is_front}
use boost_web.Http.Mime.Table.{mime_types}

-- tolower, in the "C" locale
abbrev pub lower : ℕ → ℕ
lower c = if leb 65 c && leb c 90 then c + 32 else c

-- compare_string_ignore_case_t finds neither of two strings less than the other: strcasecmp, which reads
-- up to the first NUL, is 0.
unfoldable pub equivalent : Bytes → Bytes → Bool
equivalent [] [] = true
equivalent [] (y ∷ ys) = y == 0
equivalent (x ∷ xs) [] = x == 0
equivalent (x ∷ xs) (y ∷ ys) = lower x == lower y && (x == 0 || equivalent xs ys)

-- MimeType's m_mime_type_map, by what find gives
abbrev pub TypeMap : Type 0
TypeMap = Bytes → Option String

-- `m_mime_type_map[suffix] = type`
unfoldable pub assign : TypeMap → String × String → TypeMap
unfolding equivalent
assign m (suffix, type) file_suffix =
    if equivalent file_suffix (codes suffix) then some type else m file_suffix

unfoldable pub assign_all : TypeMap → List (String × String) → TypeMap
unfolding assign
assign_all m [] = m
assign_all m (entry ∷ entries) = assign_all (assign m entry) entries

-- MimeType::MimeType
unfoldable pub type_map : TypeMap
unfolding assign_all mime_types
type_map = assign_all (λ _. none) mime_types

-- MimeType::m_default_mime_type
abbrev pub default_mime_type : String
default_mime_type = "application/octet-stream"

unfoldable pub or_default : Option String → String
or_default none = default_mime_type
or_default (some type) = type

-- MimeType::operator ()
unfoldable pub mime_type : Bytes → String
unfolding type_map or_default
mime_type file_suffix = or_default (type_map file_suffix)

unfoldable pub later : ℕ → Bytes → Option Bytes → Option Bytes
later c cs (some found) = some found
later c cs none = if c == dot || c == slash then some (c ∷ cs) else none

-- `filename.find_last_of("./")`, as the rest of the name from there on
unfoldable pub find_last_of : Bytes → Option Bytes
unfolding later
find_last_of [] = none
find_last_of (c ∷ cs) = later c cs (find_last_of cs)

unfoldable pub suffix_from : Option Bytes → Bytes
suffix_from none = []
suffix_from (some []) = []
suffix_from (some (c ∷ cs)) = if c == dot then c ∷ cs else []

-- What get_mime_type looks up.
unfoldable pub suffix_of : Bytes → Bytes
unfolding suffix_from find_last_of
suffix_of filename = suffix_from (find_last_of filename)

-- get_mime_type
unfoldable pub get_mime_type : Bytes → String
unfolding mime_type suffix_of
get_mime_type filename = mime_type (suffix_of filename)
