-- ===== src/Http/Target/Root.antt =====
-- Where the path of a file that handle_request opens (inc/http_utility.h) leads to in the file system.
use boost_web.Common.{
  ◌≡◌, refl, ap, true, false, ◌||◌, if◌then◌else◌, List, [], ◌∷◌, ◌++◌, Bytes, if_cases, tail,
  arith,
}
use boost_web.Http.Target.{dot, is_legal}
use boost_web.Http.Target.Segments.{equals, any_parent, segments, parent, is_legal-segments}

-- A directory, as the names from it up to the top; a segment enters one, leaves one, or does neither.
unfoldable pub enter : Bytes → List Bytes → List Bytes
unfolding equals
enter s dir =
    if equals s [] || equals s (dot ∷ [])
    then dir
    else if equals s parent
    then tail dir
    else s ∷ dir

unfoldable pub walk : List Bytes → List Bytes → List Bytes
unfolding enter
walk [] dir = dir
walk (s ∷ ss) dir = walk ss (enter s dir)

-- The directory is `root` or inside of it.
abbrev pub Below : List Bytes → List Bytes → Type 0
Below root dir = (inside : List Bytes) × (dir ≡ inside ++ root)

enter-Below :
    (s : Bytes) (root dir : List Bytes)
    → equals s parent ≡ false
    → Below root dir
    → Below root (enter s dir)
unfolding enter
enter-Below s root dir e (inside, p) =
    if_cases (Below root) (equals s [] || equals s (dot ∷ [])) _ _ (λ _. (inside, p))
      (λ _.
        if_cases (Below root) (equals s parent) _ _ (λ up. absurd (ground arith))
          (λ _. (s ∷ inside, ap (λ l. s ∷ l) p)))

walk-Below :
    (ss root dir : List Bytes) → any_parent ss ≡ false → Below root dir → Below root (walk ss dir)
unfolding walk any_parent
walk-Below [] root dir e b = b
walk-Below (s ∷ ss) root dir e b =
    walk-Below ss root (enter s dir) (ground arith) (enter-Below s root dir (ground arith) b)

legal_any_parent : (target : Bytes) → is_legal target ≡ true → any_parent (segments target) ≡ false
legal_any_parent target e = let q = is_legal-segments target in ground arith

-- The segments of a target that handle_request goes on with lead from any directory to itself or to a
-- place inside of it, when each "." stays, each ".." goes up and each other one goes down.
pub legal_target_stays-Below :
    (root : List Bytes) (target : Bytes)
    → is_legal target ≡ true
    → Below root (walk (segments target) root)
legal_target_stays-Below root target e =
    walk-Below (segments target) root root (legal_any_parent target e) ([], refl)
