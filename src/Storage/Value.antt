-- ===== src/Storage/Value.antt =====
-- internal/storage/row.go: `Value`. The Go struct has one field for each type of value beside its
-- tag; the constructors keep the field that the tag selects. An int64 is its bit pattern, a number
-- below 2 ^ 64, and so is a float64 (`math.Float64bits`).
use sqlgo.Base.{ℕ, ◌^◌, ◌<◌, Bytes, length}

pub data Value : Type 0 where
  null : Value
  integer : ℕ → Value
  real : ℕ → Value
  text : Bytes → Value
  blob : Bytes → Value

-- `v.Type`, as the byte that is stored.
unfoldable pub value_type : Value → ℕ
value_type null = 0
value_type (integer v) = 1
value_type (real v) = 2
value_type (text s) = 3
value_type (blob b) = 4

-- Machine integers in range, and texts and blobs whose length is a C int.
abbrev pub IsStorable : Value → Type 0
IsStorable null = Unit
IsStorable (integer v) = v < 2 ^ 64
IsStorable (real v) = v < 2 ^ 64
IsStorable (text s) = length s < 2 ^ 31
IsStorable (blob b) = length b < 2 ^ 31
