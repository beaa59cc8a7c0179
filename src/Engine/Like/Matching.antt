-- ===== src/Engine/Like/Matching.antt =====
-- `sqlLikeMatch` against a description of the strings that a pattern stands for.
use sqlgo.Base.{
  ℕ, ◌≡◌, ◌↔◌, refl, sym, Bool, true, false, List, [], ◌∷◌, ◌==◌, if◌then◌else◌, Bool-cases, inl,
  inr,
}
use mathlib.Core.List.{append-nil}
use sqlgo.Engine.Pattern.{
  Item, exactly, one, many, Matches, IsFor, is_empty, is_empty-IsFor, literal-IsFor, any_one-IsFor,
  some_suffix-IsFor,
}
use sqlgo.Engine.Like.{percent, underscore, like_rune, sql_like_match}

abbrev pub item : ℕ → Item
item c = if c == percent then many else if c == underscore then one else exactly c

-- An escape rune makes the rune behind it stand for itself; as the last rune of the pattern it
-- is none.
unfoldable pub items : ℕ → List ℕ → List Item
items escape [] = []
items escape (c ∷ []) = item c ∷ []
items escape (c ∷ d ∷ rest) =
    if c == escape then exactly d ∷ items escape rest else item c ∷ items escape (d ∷ rest)

like_rune-IsFor :
    (its : List Item) (k : List ℕ → Bool)
    → IsFor its k
    → (c : ℕ) → IsFor (item c ∷ its) (like_rune false c k)
unfolding like_rune
like_rune-IsFor its k is c s = elim (Bool-cases (c == percent)) [
  | inl is_percent ↦ rw is_percent (some_suffix-IsFor its k is s)
  | inr other ↦ elim (Bool-cases (c == underscore)) [
    | inl is_one ↦ rw (other, is_one) (any_one-IsFor its k is s)
    | inr plain ↦ rw (other, plain) (literal-IsFor its k is c s)
  ]
]

-- At the end of the pattern `%` is not tried on each suffix.
like_rune-last : (c : ℕ) (s : List ℕ) → like_rune true c is_empty s ≡ like_rune false c is_empty s
unfolding like_rune
like_rune-last c s = elim (Bool-cases (c == percent)) [
  | inl is_percent ↦
      rw is_percent
        (sym ((some_suffix-IsFor [] is_empty is_empty-IsFor s).1 (s, [], sym (append-nil s), refl)))
  | inr other ↦ rw other refl
]

-- `sqlLikeMatch` accepts exactly the strings that the pattern stands for: an escaped rune for
-- itself, `_` for one rune, `%` for any number of them, and any other rune for itself.
pub sql_like_match-Matches :
    (escape : ℕ) (pattern s : List ℕ)
    → sql_like_match escape pattern s ≡ true ↔ Matches (items escape pattern) s
unfolding sql_like_match items
sql_like_match-Matches escape [] s = is_empty-IsFor s
sql_like_match-Matches escape (c ∷ []) s =
    rw (like_rune-last c s) (like_rune-IsFor [] is_empty is_empty-IsFor c s)
sql_like_match-Matches escape (c ∷ d ∷ rest) s = elim (Bool-cases (c == escape)) [
  | inl escaped ↦
      rw escaped (literal-IsFor (items escape rest) _ (sql_like_match-Matches escape rest) d s)
  | inr plain ↦
      rw plain
        (like_rune-IsFor (items escape (d ∷ rest)) _ (sql_like_match-Matches escape (d ∷ rest)) c s)
]
