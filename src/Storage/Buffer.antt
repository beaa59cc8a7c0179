-- ===== src/Storage/Buffer.antt =====
-- A fixed byte array, `[PageSize]byte`: reads, writes of a run of bytes, and their laws. Callers
-- check the bounds; out of them a read is 0 here, and no result depends on it.
use sqlgo.Base.{
  ◌⊎◌, ℕ, zero, suc, ◌+◌, ◌-◌, ◌≤◌, ◌<◌, ◌≡◌, refl, ap, arith, Bytes, [], ◌∷◌, ◌++◌, length, take,
  drop, ltb, if◌then◌else◌, length-append,
}
use mathlib.Core.Path.{ap₂}
use sqlgo.Base.{sym, ◌∙◌, ◌^◌, ◌/◌, ◌%◌}
use sqlgo.Base.Word.{uint16, put_uint16, uint16-put}

unfoldable pub byte_at : Bytes → ℕ → ℕ
byte_at [] i = 0
byte_at (x ∷ xs) zero = x
byte_at (x ∷ xs) (suc i) = byte_at xs i

-- `copy(d[off:], bs)`
unfoldable pub write : Bytes → ℕ → Bytes → Bytes
write d off bs = take off d ++ (bs ++ drop (off + length bs) d)

-- `d[off:off+n]`
unfoldable pub slice : Bytes → ℕ → ℕ → Bytes
slice d off zero = []
slice d off (suc n) = byte_at d off ∷ slice d (off + 1) n

pub byte_at-append :
    (xs ys : Bytes) (i : ℕ)
    → byte_at (xs ++ ys) i
      ≡ (if ltb i (length xs) then byte_at xs i else byte_at ys (i - length xs))
unfolding byte_at
byte_at-append [] ys i = ground arith
byte_at-append (x ∷ xs) ys zero = ground arith
byte_at-append (x ∷ xs) ys (suc i) = ground (arith, byte_at-append xs ys i)

byte_at-take : (n i : ℕ) (xs : Bytes) → i < n → byte_at (take n xs) i ≡ byte_at xs i
unfolding byte_at
byte_at-take zero i xs h = absurd (omega arith)
byte_at-take (suc n) i [] h = refl
byte_at-take (suc n) zero (x ∷ xs) h = refl
byte_at-take (suc n) (suc i) (x ∷ xs) h = byte_at-take n i xs (omega arith)

byte_at-drop : (n i : ℕ) (xs : Bytes) → byte_at (drop n xs) i ≡ byte_at xs (n + i)
unfolding byte_at
byte_at-drop zero i xs = let e : 0 + i ≡ i = omega arith in rw e refl
byte_at-drop (suc n) i [] = refl
byte_at-drop (suc n) i (x ∷ xs) =
    let e : suc n + i ≡ suc (n + i) = omega arith in rw e (byte_at-drop n i xs)

pub length-take_le : (n : ℕ) (xs : Bytes) → n ≤ length xs → length (take n xs) ≡ n
length-take_le zero xs h = refl
length-take_le (suc n) [] h = absurd (omega arith)
length-take_le (suc n) (x ∷ xs) h = ap suc (length-take_le n xs (omega arith))

length-drop : (n : ℕ) (xs : Bytes) → length (drop n xs) ≡ length xs - n
length-drop zero xs = omega arith
length-drop (suc n) [] = omega arith
length-drop (suc n) (x ∷ xs) = omega (arith, length-drop n xs)

pub length-write :
    (d : Bytes) (off : ℕ) (bs : Bytes)
    → off + length bs ≤ length d
    → length (write d off bs) ≡ length d
unfolding write
length-write d off bs h = omega (
  arith,
  length-append (take off d) (bs ++ drop (off + length bs) d),
  length-append bs (drop (off + length bs) d),
  length-take_le off d,
  length-drop (off + length bs) d,
)

-- What stands at `i` after a write: the new bytes inside the run, the old ones around it.
pub byte_at-write :
    (d : Bytes) (off : ℕ) (bs : Bytes) (i : ℕ)
    → off + length bs ≤ length d
    → byte_at (write d off bs) i ≡ (
        if ltb i off
        then byte_at d i
        else if ltb i (off + length bs)
        then byte_at bs (i - off)
        else byte_at d i)
unfolding write
byte_at-write d off bs i h =
    let n = off + length bs in
    let back : i ≡ n + (i - off - length bs) ⊎ (i < n) = omega arith in
    ground (
      arith,
      length-take_le off d,
      byte_at-append (take off d) (bs ++ drop n d) i,
      byte_at-append bs (drop n d) (i - off),
      byte_at-take off i d,
      byte_at-drop n (i - off - length bs) d,
      back,
    )

-- The big-endian uint16 at an offset.
abbrev pub read16 : Bytes → ℕ → ℕ
read16 d off = uint16 (byte_at d off) (byte_at d (off + 1))

module _ (d : Bytes) (off : ℕ) (bs : Bytes) (fits : off + length bs ≤ length d) where
  pub byte_at-write_apart :
      (i : ℕ) → (i < off) ⊎ (off + length bs ≤ i) → byte_at (write d off bs) i ≡ byte_at d i
  byte_at-write_apart i apart = ground (arith, byte_at-write d off bs i fits)

  pub read16-write_apart :
      (i : ℕ) → (i + 2 ≤ off) ⊎ (off + length bs ≤ i) → read16 (write d off bs) i ≡ read16 d i
  read16-write_apart i apart =
      ground (arith, byte_at-write d off bs i fits, byte_at-write d off bs (i + 1) fits)

  pub slice-write_apart :
      (n i : ℕ) → (i + n ≤ off) ⊎ (off + length bs ≤ i) → slice (write d off bs) i n ≡ slice d i n
  unfolding slice
  slice-write_apart zero i apart = refl
  slice-write_apart (suc n) i apart =
      let apart' : (i + 1 + n ≤ off) ⊎ (off + length bs ≤ i + 1) = omega arith in
      let here : (i < off) ⊎ (off + length bs ≤ i) = omega arith in
      ap₂ ◌∷◌ (byte_at-write_apart i here) (slice-write_apart n (i + 1) apart')

pub byte_at-write_in :
    (d : Bytes) (off : ℕ) (bs : Bytes) (k : ℕ)
    → off + length bs ≤ length d
    → k < length bs
    → byte_at (write d off bs) (off + k) ≡ byte_at bs k
byte_at-write_in d off bs k fits h =
    let e : off + k - off ≡ k = omega arith in
    ground (arith, byte_at-write d off bs (off + k) fits, e)

-- Two bytes, read back as one number.
pub read16-write_pair :
    (d : Bytes) (off a b : ℕ)
    → off + 2 ≤ length d
    → read16 (write d off (a ∷ b ∷ [])) off ≡ uint16 a b
unfolding byte_at
read16-write_pair d off a b fits =
    let bs = a ∷ b ∷ [] in
    let e : off + 0 ≡ off = omega arith in
    let first : byte_at (write d off bs) off ≡ a =
      rw e at (byte_at-write_in d off bs 0 fits (omega arith)) in
    rw (first, byte_at-write_in d off bs 1 fits (omega arith))

pub read16-write :
    (d : Bytes) (off v : ℕ)
    → off + 2 ≤ length d
    → v < 2 ^ 16
    → read16 (write d off (put_uint16 v)) off ≡ v
unfolding put_uint16
read16-write d off v fits h =
    read16-write_pair d off (v / 256 % 256) (v % 256) fits ∙ uint16-put v h

pub slice-eq :
    (d : Bytes) (off : ℕ) (bs : Bytes)
    → ((k : ℕ) → k < length bs → byte_at d (off + k) ≡ byte_at bs k)
    → slice d off (length bs) ≡ bs
unfolding slice byte_at
slice-eq d off [] same = refl
slice-eq d off (x ∷ bs) same =
    let e : off + 0 ≡ off = omega arith in
    ap₂ ◌∷◌ (rw e at (same 0 (omega arith))) (
      slice-eq d (off + 1) bs λ k h.
        let e' : off + 1 + k ≡ off + suc k = omega arith in rw e' (same (suc k) (omega arith)))

-- The run that was written, read back.
pub slice-write_self :
    (d : Bytes) (off : ℕ) (bs : Bytes)
    → off + length bs ≤ length d
    → slice (write d off bs) off (length bs) ≡ bs
slice-write_self d off bs fits =
    slice-eq (write d off bs) off bs λ k h. byte_at-write_in d off bs k fits h

pub take-drop-slice :
    (n off : ℕ) (d : Bytes) → off + n ≤ length d → take n (drop off d) ≡ slice d off n
take-drop-slice n off d h =
    let bs = take n (drop off d) in
    let size : length bs ≡ n = length-take_le n (drop off d) (omega (arith, length-drop off d)) in
    let read : slice d off (length bs) ≡ bs =
      slice-eq d off bs
        λ k k_lt. sym (byte_at-take n k (drop off d) (omega arith) ∙ byte_at-drop off k d) in
    sym (rw size at read)

pub byte_at-slice :
    (d : Bytes) (off n k : ℕ) → k < n → byte_at (slice d off n) k ≡ byte_at d (off + k)
unfolding slice byte_at
byte_at-slice d off zero k h = absurd (omega arith)
byte_at-slice d off (suc n) zero h = let e : off + 0 ≡ off = omega arith in rw e refl
byte_at-slice d off (suc n) (suc k) h =
    let e : off + suc k ≡ off + 1 + k = omega arith in
    rw e (byte_at-slice d (off + 1) n k (omega arith))

pub byte_at-append_left :
    (xs ys : Bytes) (i : ℕ) → i < length xs → byte_at (xs ++ ys) i ≡ byte_at xs i
byte_at-append_left xs ys i h = ground (arith, byte_at-append xs ys i)
