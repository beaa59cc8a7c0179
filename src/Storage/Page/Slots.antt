-- ===== src/Storage/Page/Slots.antt =====
-- The array of cell pointers under the shift loops.
use sqlgo.Base.{
  ℕ, zero, suc, ◌+◌, ◌*◌, ◌≤◌, ◌<◌, ◌≡◌, ◌⊎◌, inl, inr, refl, ◌∙◌, arith, Bytes, length, [], ◌∷◌,
}
use sqlgo.Storage.Buffer.{
  byte_at, write, slice, read16, length-write, read16-write_pair, read16-write_apart,
  slice-write_apart,
}
use sqlgo.Storage.Page.{slot_offset, copy_slot, shift_up, shift_down}

-- Where a slot stands, for a slot that is inside the page.
abbrev pub slot : ℕ → ℕ
slot i = 9 + i * 2

pub slot_offset_lem : (i : ℕ) → slot i ≤ 4096 → slot_offset i ≡ slot i
unfolding slot_offset
slot_offset_lem i h = omega arith

-- Everything below slot `lo` and from slot `hi` on reads the same in both.
pub record Agree (lo hi : ℕ) (d d' : Bytes) : Type 0 where
  pub size : length d' ≡ length d
  pub read : (i : ℕ) → (i + 2 ≤ slot lo) ⊎ (slot hi ≤ i) → read16 d' i ≡ read16 d i
  pub run : (i n : ℕ) → (i + n ≤ slot lo) ⊎ (slot hi ≤ i) → slice d' i n ≡ slice d i n

module _ (d : Bytes) (src dst : ℕ) (src_in : slot src + 2 ≤ 4096) (dst_in : slot dst + 2 ≤ 4096)
    (size : length d ≡ 4096) where
  copy_slot_lem :
      copy_slot src dst d
      ≡ write d (slot dst) (byte_at d (slot src) ∷ byte_at d (slot src + 1) ∷ [])
  unfolding copy_slot
  copy_slot_lem = rw (slot_offset_lem src (omega arith), slot_offset_lem dst (omega arith))

  pub read16-copy_slot : read16 (copy_slot src dst d) (slot dst) ≡ read16 d (slot src)
  read16-copy_slot = rw copy_slot_lem (read16-write_pair d (slot dst) _ _ (omega arith))

  pub copy_slot-Agree : Agree dst (dst + 1) d (copy_slot src dst d)
  copy_slot-Agree = rw copy_slot_lem (record {
    size = length-write d (slot dst) _ (omega arith);
    read = λ i apart. read16-write_apart d (slot dst) _ (omega arith) i (omega arith);
    run = λ i n apart. slice-write_apart d (slot dst) _ (omega arith) n i (omega arith);
  })

pub Agree-wide :
    (lo hi lo' hi' : ℕ) (d d' : Bytes) → lo' ≤ lo → hi ≤ hi' → Agree lo hi d d' → Agree lo' hi' d d'
Agree-wide lo hi lo' hi' d d' h k a = record {
  size = a.size;
  read = λ i apart. a.read i (omega arith);
  run = λ i n apart. a.run i n (omega arith);
}

pub Agree-trans :
    {lo hi : ℕ} {d d' d'' : Bytes} → Agree lo hi d d' → Agree lo hi d' d'' → Agree lo hi d d''
Agree-trans a b = record {
  size = b.size ∙ a.size;
  read = λ i apart. b.read i apart ∙ a.read i apart;
  run = λ i n apart. b.run i n apart ∙ a.run i n apart;
}

pub shift_up-Agree :
    (n from : ℕ) (d : Bytes)
    → slot (from + n) + 2 ≤ 4096
    → length d ≡ 4096
    → Agree (from + 1) (from + n + 1) d (shift_up n from d)
unfolding shift_up
shift_up-Agree zero from d fits size = record {
  size = refl;
  read = λ i apart. refl;
  run = λ i n apart. refl;
}
shift_up-Agree (suc n) from d fits size =
    let d' = copy_slot (from + n) (from + n + 1) d in
    let one = copy_slot-Agree d (from + n) (from + n + 1) (omega arith) (omega arith) size in
    let rest = shift_up-Agree n from d' (omega arith) (one.size ∙ size) in
    Agree-trans (Agree-wide _ _ (from + 1) (from + suc n + 1) d d' (omega arith) (omega arith) one)
      (Agree-wide _ _ (from + 1) (from + suc n + 1) d' (shift_up n from d') (omega arith)
        (omega arith) rest)

-- Each slot that the loop goes through takes what stood one slot below.
pub read16-shift_up :
    (n from j : ℕ) (d : Bytes)
    → slot (from + n) + 2 ≤ 4096
    → length d ≡ 4096
    → from ≤ j
    → j < from + n
    → read16 (shift_up n from d) (slot (j + 1)) ≡ read16 d (slot j)
unfolding shift_up
read16-shift_up zero from j d fits size h k = absurd (omega arith)
read16-shift_up (suc n) from j d fits size h k =
    let d' = copy_slot (from + n) (from + n + 1) d in
    let one = copy_slot-Agree d (from + n) (from + n + 1) (omega arith) (omega arith) size in
    let rest = shift_up-Agree n from d' (omega arith) (one.size ∙ size) in
    let where_ : (j ≡ from + n) ⊎ (j < from + n) = omega arith in
    elim where_ [
      | inl top ↦ rw top (
          rest.read (slot (from + n + 1)) (inr (omega arith))
          ∙ read16-copy_slot d (from + n) (from + n + 1) (omega arith) (omega arith) size)
      | inr below ↦
          read16-shift_up n from j d' (omega arith) (one.size ∙ size) h below
          ∙ one.read (slot j) (inl (omega arith))
    ]

pub shift_down-Agree :
    (n from : ℕ) (d : Bytes)
    → slot (from + n) + 2 ≤ 4096
    → length d ≡ 4096
    → Agree from (from + n) d (shift_down n from d)
unfolding shift_down
shift_down-Agree zero from d fits size = record {
  size = refl;
  read = λ i apart. refl;
  run = λ i n apart. refl;
}
shift_down-Agree (suc n) from d fits size =
    let d' = copy_slot (from + 1) from d in
    let one = copy_slot-Agree d (from + 1) from (omega arith) (omega arith) size in
    let rest = shift_down-Agree n (from + 1) d' (omega arith) (one.size ∙ size) in
    Agree-trans (Agree-wide _ _ from (from + suc n) d d' (omega arith) (omega arith) one) (
      Agree-wide _ _ from (from + suc n) d' (shift_down n (from + 1) d') (omega arith) (omega arith)
        rest)

-- Each slot that the loop goes through takes what stood one slot above.
pub read16-shift_down :
    (n from j : ℕ) (d : Bytes)
    → slot (from + n) + 2 ≤ 4096
    → length d ≡ 4096
    → from ≤ j
    → j < from + n
    → read16 (shift_down n from d) (slot j) ≡ read16 d (slot (j + 1))
unfolding shift_down
read16-shift_down zero from j d fits size h k = absurd (omega arith)
read16-shift_down (suc n) from j d fits size h k =
    let d' = copy_slot (from + 1) from d in
    let one = copy_slot-Agree d (from + 1) from (omega arith) (omega arith) size in
    let rest = shift_down-Agree n (from + 1) d' (omega arith) (one.size ∙ size) in
    let where_ : (j ≡ from) ⊎ (from + 1 ≤ j) = omega arith in
    elim where_ [
      | inl first ↦ rw first (
          rest.read (slot from) (inl (omega arith))
          ∙ read16-copy_slot d (from + 1) from (omega arith) (omega arith) size)
      | inr above ↦
          read16-shift_down n (from + 1) j d' (omega arith) (one.size ∙ size) above (omega arith)
          ∙ one.read (slot (j + 1)) (inr (omega arith))
    ]
