-- ===== src/Engine/Like.antt =====
-- internal/engine/executor/eval.go: `sqlLikeMatch`. Strings are lists of runes: `[]rune` of
-- `string(srunes[i:])` gives the same runes again.
pub mod Matching
use sqlgo.Base.{ℕ, Bool, true, false, List, [], ◌∷◌, ◌==◌, if◌then◌else◌}
use sqlgo.Engine.Pattern.{is_empty, literal, any_one, some_suffix}

abbrev pub percent : ℕ
percent = 37

abbrev pub underscore : ℕ
underscore = 95

-- The `switch`, where `last` tells that the rune is the last of the pattern.
unfoldable pub like_rune : Bool → ℕ → (List ℕ → Bool) → List ℕ → Bool
like_rune last c k s =
    if c == percent
    then (if last then true else some_suffix k s)
    else if c == underscore
    then any_one k s
    else literal c k s

unfoldable pub sql_like_match : ℕ → List ℕ → List ℕ → Bool
sql_like_match escape [] s = is_empty s
sql_like_match escape (c ∷ []) s = like_rune true c is_empty s
sql_like_match escape (c ∷ d ∷ rest) s =
    if c == escape
    then literal d (sql_like_match escape rest) s
    else like_rune false c (sql_like_match escape (d ∷ rest)) s
