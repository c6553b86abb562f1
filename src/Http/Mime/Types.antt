-- ===== src/Http/Mime/Types.antt =====
-- What get_mime_type gives (src/http_utility.cpp) for the names that end in a suffix of the table.
use text.Mathlib.Text.{◌==◌ as same_text}
use text.Mathlib.TextEquality.{eq_iff}
use mathlib.Core.List.{Memᴰ}
use mathlib.Core.List.Memᴰ.{head, tail}
use boost_web.Common.{
  ℕ, subst, ◌≡◌, refl, sym, Bool, true, false, ◌&&◌, ◌==◌, List, [], ◌∷◌, ◌++◌, Bytes, arith,
  String, Option, some, none, codes,
}
use boost_web.Http.Target.{dot}
use boost_web.Http.Mime.{
  type_map, assign, assign_all, equivalent, get_mime_type, mime_type, suffix_of, later, or_default,
  suffix_from, find_last_of,
}
use boost_web.Http.Mime.Table.{mime_types}

is_none {ℓ} : {A : Type ℓ} → Option A → Bool
is_none none = true
is_none (some a) = false

gives : String → Option String → Bool
gives type none = false
gives type (some other) = same_text other type

gives-or_default : (type : String) (o : Option String) → gives type o ≡ true → or_default o ≡ type
unfolding gives or_default
gives-or_default type none e = absurd (ground arith)
gives-or_default type (some other) e = (eq_iff other type).0 e

-- The last of `.` and `/` in a suffix is the `.` that it starts with.
is_suffix : Bytes → Bool
is_suffix [] = false
is_suffix (c ∷ cs) = c == dot && is_none (find_last_of cs)

right : String × String → Bool
unfolding gives is_suffix find_last_of later is_none
right (suffix, type) = gives type (type_map (codes suffix)) && is_suffix (codes suffix)

found : List (String × String) → Bool
unfolding right
found [] = true
found (entry ∷ entries) = right entry && found entries

table : found mime_types ≡ true
unfolding found mime_types type_map assign assign_all equivalent
table = refl

found-head :
    (entry : String × String) (entries : List (String × String))
    → found (entry ∷ entries) ≡ true
    → right entry ≡ true
unfolding found
found-head entry entries e = ground arith

found-tail :
    (entry : String × String) (entries : List (String × String))
    → found (entry ∷ entries) ≡ true
    → found entries ≡ true
unfolding found
found-tail entry entries e = ground arith

found_at :
    (entries : List (String × String)) (entry : String × String)
    → Memᴰ entry entries
    → found entries ≡ true
    → right entry ≡ true
found_at [] entry m e = elim m [ ]
found_at (x ∷ entries) entry (head p) e =
    subst (λ y. right y ≡ true) (sym p) (found-head x entries e)
found_at (x ∷ entries) entry (tail m) e = found_at entries entry m (found-tail x entries e)

is_suffix-dot : (c : ℕ) (cs : Bytes) → is_suffix (c ∷ cs) ≡ true → c == dot ≡ true
unfolding is_suffix
is_suffix-dot c cs e = ground arith

none_of : (o : Option Bytes) → is_none o ≡ true → o ≡ none
unfolding is_none
none_of none e = refl
none_of (some a) e = absurd (ground arith)

is_suffix_last : (c : ℕ) (cs : Bytes) → is_suffix (c ∷ cs) ≡ true → find_last_of cs ≡ none
unfolding is_suffix
is_suffix_last c cs e = none_of (find_last_of cs) (ground arith)

find_last_of_suffix :
    (base : Bytes) (c : ℕ) (cs : Bytes)
    → is_suffix (c ∷ cs) ≡ true
    → find_last_of (base ++ c ∷ cs) ≡ some (c ∷ cs)
unfolding find_last_of later
find_last_of_suffix [] c cs e = rw (is_suffix_last c cs e, is_suffix-dot c cs e) refl
find_last_of_suffix (b ∷ base) c cs e = rw (find_last_of_suffix base c cs e) refl

last_suffix : (base suffix : Bytes) → is_suffix suffix ≡ true → suffix_of (base ++ suffix) ≡ suffix
unfolding suffix_of suffix_from is_suffix
last_suffix base [] e = absurd (ground arith)
last_suffix base (c ∷ cs) e = rw (find_last_of_suffix base c cs e) (rw (is_suffix-dot c cs e) refl)

right_parts :
    (suffix type : String)
    → right (suffix, type) ≡ true
    → (gives type (type_map (codes suffix)) ≡ true) × (is_suffix (codes suffix) ≡ true)
unfolding right
right_parts suffix type e = (ground arith, ground arith)

-- A file whose name ends in a suffix of the table has the type that the table gives for it.
pub get_mime_type_table :
    (base : Bytes) (suffix type : String)
    → Memᴰ (suffix, type) mime_types
    → get_mime_type (base ++ codes suffix) ≡ type
unfolding get_mime_type mime_type
get_mime_type_table base suffix type m =
    let (right, last) = right_parts suffix type (found_at mime_types (suffix, type) m table) in
    rw (last_suffix base (codes suffix) last)
      (gives-or_default type (type_map (codes suffix)) right)
