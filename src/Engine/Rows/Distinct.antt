-- ===== src/Engine/Rows/Distinct.antt =====
-- internal/engine/executor/executor.go: what `dedup` keeps.
use sqlgo.Base.{
  ◌≡◌, refl, ◌∙◌, arith, true, false, not, ◌&&◌, List, [], ◌∷◌, map, Bytes, bytes_eq, bytes_eq_iff,
  bytes_eq_self, Bool-cases, inl, inr,
}
use sqlgo.Engine.Eval.Values.{Library}
use sqlgo.Engine.Rows.{ValueRow, has_key, row_key, keep_new, dedup}

module _ (go : Library) where
  abbrev pub keys : List ValueRow → List Bytes
  keys = map (row_key go)

  -- No row has the key of a row behind it.
  abbrev pub AreDistinct : List ValueRow → Type 0
  AreDistinct [] = Unit
  AreDistinct (row ∷ rows) = (has_key (row_key go row) (keys rows) ≡ false) × AreDistinct rows

  keep_new-none : (seen : List Bytes) → keep_new go seen [] ≡ []
  unfolding keep_new
  keep_new-none seen = refl

  has_key_none : (key : Bytes) → has_key key [] ≡ false
  unfolding has_key
  has_key_none key = refl

  keep_new-skip :
      (seen : List Bytes) (row : ValueRow) (rows : List ValueRow)
      → has_key (row_key go row) seen ≡ true
      → keep_new go seen (row ∷ rows) ≡ keep_new go seen rows
  unfolding keep_new
  keep_new-skip seen row rows h = rw (h, keep_new) refl

  keep_new-keep :
      (seen : List Bytes) (row : ValueRow) (rows : List ValueRow)
      → has_key (row_key go row) seen ≡ false
      → keep_new go seen (row ∷ rows) ≡ row ∷ keep_new go (row_key go row ∷ seen) rows
  unfolding keep_new
  keep_new-keep seen row rows h = rw (h, keep_new) refl

  has_key-same :
      (k key : Bytes) (seen : List Bytes)
      → bytes_eq k key ≡ true
      → has_key key seen ≡ has_key k seen
  has_key-same k key seen h = rw ((bytes_eq_iff k key).0 h) refl

  -- The keys that are kept are those of the rows that were not seen before.
  has_key-keep_new :
      (key : Bytes) (seen : List Bytes) (rows : List ValueRow)
      → has_key key (keys (keep_new go seen rows))
        ≡ (not (has_key key seen) && has_key key (keys rows))
  unfolding has_key
  has_key-keep_new key seen [] = rw (keep_new-none seen) (ground (arith, has_key_none key))
  has_key-keep_new key seen (row ∷ rows) = elim (Bool-cases (has_key (row_key go row) seen)) [
    | inl old ↦
        rw (keep_new-skip seen row rows old, has_key-keep_new key seen rows)
          (ground (arith, old, has_key-same (row_key go row) key seen))
    | inr new ↦
        rw (keep_new-keep seen row rows new, has_key-keep_new key (row_key go row ∷ seen) rows)
          (ground (arith, new, has_key-same (row_key go row) key seen))
  ]

  seen_here :
      (key : Bytes) (seen : List Bytes) (rows : List ValueRow)
      → (not (has_key key (key ∷ seen)) && has_key key (keys rows)) ≡ false
  unfolding has_key
  seen_here key seen rows = rw (bytes_eq_self key) refl

  none_seen :
      (key : Bytes) (rows : List ValueRow)
      → (not (has_key key []) && has_key key (keys rows)) ≡ has_key key (keys rows)
  unfolding has_key
  none_seen key rows = refl

  keep_new-AreDistinct :
      (seen : List Bytes) (rows : List ValueRow) → AreDistinct (keep_new go seen rows)
  unfolding has_key
  keep_new-AreDistinct seen [] = rw (keep_new-none seen) tt
  keep_new-AreDistinct seen (row ∷ rows) = elim (Bool-cases (has_key (row_key go row) seen)) [
    | inl old ↦ rw (keep_new-skip seen row rows old) (keep_new-AreDistinct seen rows)
    | inr new ↦ rw (keep_new-keep seen row rows new) (
      has_key-keep_new (row_key go row) (row_key go row ∷ seen) rows
          ∙ seen_here (row_key go row) seen rows,
      keep_new-AreDistinct (row_key go row ∷ seen) rows,
    )
  ]

  -- Of the rows of a result, `dedup` keeps rows with different keys, and one for every key that a row
  -- has.
  pub dedup-AreDistinct :
      (rows : List ValueRow)
      → AreDistinct (dedup go rows)
        × ((key : Bytes) → has_key key (keys (dedup go rows)) ≡ has_key key (keys rows))
  unfolding dedup
  dedup-AreDistinct rows =
      (keep_new-AreDistinct [] rows, λ key. has_key-keep_new key [] rows ∙ none_seen key rows)
