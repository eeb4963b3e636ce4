-- ===== src/Repository/Paths/Examples.antt =====
-- Paths that are normalized, and one that leads out of its directory.
use butido.Prelude.{◌≡◌, refl, [], ◌∷◌, ◌++◌, ok, err}
use butido.Repository.Paths.{
  cur_dir, parent_dir, normal, PathBuf, escapes_base, Names, normalize_from,
  normalize_relative_path,
}
use butido.Repository.Paths.Normal.{
  walk, Refused, normalize_relative_path-walk, normalize_relative_path-Refused,
  normalize_relative_path_twice,
}

-- `./a/b/../c` is `a/c`.
abbrev back : PathBuf
back = cur_dir ∷ normal "a" ∷ normal "b" ∷ parent_dir ∷ normal "c" ∷ []

abbrev short : PathBuf
short = normal "a" ∷ normal "c" ∷ []

abbrev escape : PathBuf
escape = normal "a" ∷ parent_dir ∷ parent_dir ∷ normal "b" ∷ []

normalize_back : normalize_relative_path back ≡ ok short
unfolding normalize_relative_path normalize_from
normalize_back = refl

normalize_empty : normalize_relative_path (normal "a" ∷ parent_dir ∷ []) ≡ ok (cur_dir ∷ [])
unfolding normalize_relative_path normalize_from
normalize_empty = refl

normalize_escape : normalize_relative_path escape ≡ err escapes_base
unfolding normalize_relative_path normalize_from
normalize_escape = refl

normalize_relative_path-walk_example :
    (walk short ("repo" ∷ []) ≡ walk back ("repo" ∷ []))
    × ((below : Names) × (walk back ("repo" ∷ []) ≡ below ++ "repo" ∷ []))
normalize_relative_path-walk_example =
    normalize_relative_path-walk back normalize_back ("repo" ∷ [])

normalize_relative_path-Refused_example : Refused [] escape escapes_base
normalize_relative_path-Refused_example = normalize_relative_path-Refused escape normalize_escape

normalize_relative_path_twice_example : normalize_relative_path short ≡ ok short
normalize_relative_path_twice_example = normalize_relative_path_twice back normalize_back
