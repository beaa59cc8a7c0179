-- ===== src/Engine/Glob.antt =====
-- internal/engine/executor/eval.go: `globMatchRunes`.
pub mod Matching
use sqlgo.Base.{
  ℕ, zero, suc, Bool, true, false, List, [], ◌∷◌, length, ◌==◌, leb, ◌&&◌, if◌then◌else◌,
}
use sqlgo.Engine.Pattern.{is_empty, literal, any_one, some_suffix}

abbrev pub star : ℕ
star = 42

abbrev pub question : ℕ
question = 63

abbrev pub bracket : ℕ
bracket = 91

abbrev pub close_bracket : ℕ
close_bracket = 93

abbrev pub caret : ℕ
caret = 94

abbrev pub dash : ℕ
dash = 45

-- `if test { matched = true }`
abbrev pub or_test : Bool → Bool → Bool
or_test test matched = if test then true else matched

-- The loop over a class, from `pattern[i:]` on, for the rune `c`: whether it matched, and the
-- pattern behind the class. A class need not be closed.
unfoldable pub scan_class : ℕ → Bool → List ℕ → Bool × List ℕ
scan_class c matched [] = (matched, [])
scan_class c matched (x ∷ []) =
    if x == close_bracket then (matched, []) else (or_test (c == x) matched, [])
scan_class c matched (x ∷ y ∷ []) =
    let rest = scan_class c (or_test (c == x) matched) (y ∷ []) in
    if x == close_bracket then (matched, y ∷ []) else rest
scan_class c matched (x ∷ y ∷ z ∷ p) =
    let in_range = scan_class c (or_test (leb x c && leb c z) matched) p in
    let single = scan_class c (or_test (c == x) matched) (y ∷ z ∷ p) in
    if x == close_bracket then (matched, y ∷ z ∷ p) else if y == dash then in_range else single

-- A `^` behind the bracket.
unfoldable pub class_start : List ℕ → Bool × List ℕ
class_start [] = (false, [])
class_start (x ∷ p) = if x == caret then (true, p) else (false, x ∷ p)

abbrev pub same : Bool → Bool → Bool
same true b = b
same false true = false
same false false = true

-- The case of `[`, where `k` is the loop on the pattern behind the class.
unfoldable pub match_class : (List ℕ → List ℕ → Bool) → List ℕ → List ℕ → Bool
match_class k p [] = false
match_class k p (c ∷ s) =
    let (negate, body) = class_start p in
    let (matched, behind) = scan_class c false body in
    if same matched negate then false else k behind s

-- Every round shortens the pattern, so that its length is fuel enough.
unfoldable pub glob_match_runes : ℕ → List ℕ → List ℕ → Bool
glob_match_runes fuel [] s = is_empty s
glob_match_runes zero (c ∷ p) s = false
glob_match_runes (suc fuel) (c ∷ p) s =
    if c == star
    then (if is_empty p then true else some_suffix (glob_match_runes fuel p) s)
    else if c == question
    then any_one (glob_match_runes fuel p) s
    else if c == bracket
    then match_class (glob_match_runes fuel) p s
    else literal c (glob_match_runes fuel p) s

unfoldable pub glob_match : List ℕ → List ℕ → Bool
glob_match s p = glob_match_runes (length p) p s
