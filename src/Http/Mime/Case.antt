-- ===== src/Http/Mime/Case.antt =====
-- get_mime_type (src/http_utility.cpp) on names that differ in the case of their letters.
use boost_web.Common.{
  ℕ, ◌≡◌, refl, sym, ◌∙◌, ap, ◌||◌, ◌==◌, List, [], ◌∷◌, Bytes, arith, map_if, String, Option, some,
  none, codes,
}
use boost_web.Http.Target.{slash, dot}
use boost_web.Http.Mime.{
  TypeMap, lower, type_map, assign, assign_all, equivalent, get_mime_type, mime_type, suffix_of,
  later, or_default, suffix_from, find_last_of,
}
use boost_web.Http.Mime.Table.{mime_types}

unfoldable pub lowered : Bytes → Bytes
lowered [] = []
lowered (c ∷ cs) = lower c ∷ lowered cs

lower-lower : (c : ℕ) → lower (lower c) ≡ lower c
lower-lower c = ground arith

lower_zero : (c : ℕ) → (lower c == 0) ≡ (c == 0)
lower_zero c = ground arith

lower-dot : (c : ℕ) → (lower c == dot) ≡ (c == dot)
lower-dot c = ground arith

lower-slash : (c : ℕ) → (lower c == slash) ≡ (c == slash)
lower-slash c = ground arith

equivalent-lowered : (x y : Bytes) → equivalent (lowered x) y ≡ equivalent x y
unfolding equivalent lowered
equivalent-lowered [] y = refl
equivalent-lowered (c ∷ cs) [] = lower_zero c
equivalent-lowered (c ∷ cs) (y ∷ ys) =
    rw (lower-lower c, lower_zero c, equivalent-lowered cs ys) refl

assign-lowered :
    (m : TypeMap) (entry : String × String)
    → ((x : Bytes) → m (lowered x) ≡ m x)
    → (x : Bytes) → assign m entry (lowered x) ≡ assign m entry x
unfolding assign
assign-lowered m (suffix, type) e x = rw (equivalent-lowered x (codes suffix), e x) refl

assign_all-lowered :
    (m : TypeMap) (entries : List (String × String))
    → ((x : Bytes) → m (lowered x) ≡ m x)
    → (x : Bytes) → assign_all m entries (lowered x) ≡ assign_all m entries x
unfolding assign_all
assign_all-lowered m [] e x = e x
assign_all-lowered m (entry ∷ entries) e x =
    assign_all-lowered (assign m entry) entries (assign-lowered m entry e) x

lowered_rest : Option Bytes → Option Bytes
lowered_rest none = none
lowered_rest (some cs) = some (lowered cs)

later-lowered :
    (c : ℕ) (cs : Bytes) (o : Option Bytes)
    → later (lower c) (lowered cs) (lowered_rest o) ≡ lowered_rest (later c cs o)
unfolding later lowered_rest lowered
later-lowered c cs (some found) = refl
later-lowered c cs none =
    rw (lower-dot c, lower-slash c)
      (map_if lowered_rest (c == dot || c == slash) (some (c ∷ cs)) none)

find_last_of-lowered :
    (name : Bytes) → find_last_of (lowered name) ≡ lowered_rest (find_last_of name)
unfolding find_last_of lowered lowered_rest
find_last_of-lowered [] = refl
find_last_of-lowered (c ∷ cs) = rw (find_last_of-lowered cs) (later-lowered c cs (find_last_of cs))

suffix_from-lowered : (o : Option Bytes) → suffix_from (lowered_rest o) ≡ lowered (suffix_from o)
unfolding suffix_from lowered lowered_rest
suffix_from-lowered none = refl
suffix_from-lowered (some []) = refl
suffix_from-lowered (some (c ∷ cs)) = rw (lower-dot c) (map_if lowered (c == dot) (c ∷ cs) [])

get_mime_type-lowered : (name : Bytes) → get_mime_type (lowered name) ≡ get_mime_type name
unfolding get_mime_type mime_type suffix_of type_map
get_mime_type-lowered name =
    rw (find_last_of-lowered name, suffix_from-lowered (find_last_of name))
      (ap or_default
        (assign_all-lowered (λ _. none) mime_types (λ x. refl) (suffix_from (find_last_of name))))

-- Names that differ in nothing but the case of ASCII letters have the same type.
pub get_mime_type_ignores_case :
    (name other : Bytes) → lowered name ≡ lowered other → get_mime_type name ≡ get_mime_type other
get_mime_type_ignores_case name other e =
    sym (get_mime_type-lowered name) ∙ ap get_mime_type e ∙ get_mime_type-lowered other
