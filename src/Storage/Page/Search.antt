-- ===== src/Storage/Page/Search.antt =====
-- `cPageBinarySearch` on a page that holds cells in the order of their keys.
use sqlgo.Base.{
  ℕ, zero, suc, ◌+◌, ◌-◌, ◌/◌, ◌≤◌, ◌<◌, ◌≡◌, ◌⊎◌, inl, inr, refl, sym, ap, ◌∙◌, arith, Bool, true,
  false, Bytes, List, [], ◌∷◌, length, some, get_elem?, ok, lt_of_get_elem?, get_elem?_of_lt,
  le→ltb, leb, ltb, if◌then◌else◌, Bool-cases,
}
use sqlgo.Base.Word.{put_uint16, put_uint32, uint16-put}
use sqlgo.Storage.Cell.Codec.{encode_cell_lem, length-encode_cell}
use sqlgo.Storage.Buffer.{byte_at, slice, read16, slice-eq, byte_at-slice, byte_at-append_left}
use sqlgo.Storage.Cell.{Cell, negative, positive, encode_cell, key_cmp, memcmp}
use sqlgo.Storage.Cell.KeyOrder.{eq_of_key_cmp, key_cmp_order, opposite, Sign-cases}
use sqlgo.Storage.Page.{Page, compare_slot, search_loop, page_binary_search}
use sqlgo.Storage.Page.Slots.{slot, slot_offset_lem}
use sqlgo.Storage.Page.Layout.{Holds, IsStored}

-- `memcmp` reads no further than its length.
memcmp-slice :
    (n m off : ℕ) (a d : Bytes) → n ≤ m → memcmp n a (slice d off n) ≡ memcmp n a (slice d off m)
unfolding memcmp slice
memcmp-slice zero m off a d h = refl
memcmp-slice (suc n) zero off a d h = absurd (omega arith)
memcmp-slice (suc n) (suc m) off [] d h = refl
memcmp-slice (suc n) (suc m) off (x ∷ xs) d h = ground (arith, memcmp-slice n m (off + 1) xs d)

length-slice : (d : Bytes) (off n : ℕ) → length (slice d off n) ≡ n
unfolding slice
length-slice d off zero = refl
length-slice d off (suc n) = ap suc (length-slice d (off + 1) n)

module _ (d : Bytes) (low off : ℕ) (c : Cell) (s : IsStored d low off c) where
  stored_byte :
      (k : ℕ) → k < length (encode_cell c) → byte_at d (off + k) ≡ byte_at (encode_cell c) k
  stored_byte k below =
      sym (byte_at-slice d off (length (encode_cell c)) k below)
      ∙ ap (λ (bs : Bytes). byte_at bs k) s.run

  size : length (encode_cell c) ≡ 8 + length c.key + length c.value
  size = length-encode_cell c s.encodable

  -- The key's length stands in the header, and the key behind the header.
  stored_key_length : read16 d (off + 4) ≡ length c.key
  unfolding put_uint32 put_uint16 byte_at
  stored_key_length =
      let e : off + 4 + 1 ≡ off + 5 = omega arith in
      rw
        (
          e,
          stored_byte 4 (omega (arith, size)),
          stored_byte 5 (omega (arith, size)),
          encode_cell_lem c s.encodable,
        )
        (uint16-put (length c.key) s.encodable.key_fits)

  stored_key : slice d (off + 8) (length c.key) ≡ c.key
  unfolding put_uint32 put_uint16 byte_at
  stored_key = slice-eq d (off + 8) c.key λ k below.
      let e : off + 8 + k ≡ off + (8 + k) = omega arith in
      let e' : 8 + k ≡ suc (suc (suc (suc (suc (suc (suc (suc k))))))) = omega arith in
      rw (e, stored_byte (8 + k) (omega (arith, size)), encode_cell_lem c s.encodable, e')
        (byte_at-append_left c.key c.value k below)

-- On the slot of a cell, the comparison is that of the two keys.
compare_slot-Holds :
    (pg : Page) (cells : List Cell) (key : Bytes) (i : ℕ) (c : Cell)
    → Holds pg cells
    → get_elem? cells i ≡ some c
    → compare_slot pg.bytes key i ≡ ok (key_cmp key c.key)
unfolding compare_slot key_cmp
compare_slot-Holds pg cells key i c h at =
    let below = lt_of_get_elem? cells i at in
    let s = h.stored i c at in
    let off = read16 pg.bytes (slot i) in
    let minlen = if ltb (length key) (length c.key) then length key else length c.key in
    let short : minlen ≤ length c.key = ground arith in
    rw (
      slot_offset_lem i (omega arith),
      stored_key_length pg.bytes _ off c s,
      le→ltb (length pg.bytes) (slot i + 2) (omega arith),
      le→ltb (length pg.bytes) (off + 8 + minlen) (omega (arith, length-encode_cell c s.encodable)),
      memcmp-slice minlen (length c.key) (off + 8) key pg.bytes short,
      stored_key pg.bytes _ off c s,
    )

lt-or-eq : (m n : ℕ) → m ≤ n → (m < n) ⊎ (n ≡ m)
lt-or-eq m n h = omega arith

-- The keys stand in strictly ascending order.
pub record IsSorted (cells : List Cell) : Type 0 where
  pub ascending :
      (i j : ℕ) (c c' : Cell)
      → i < j
      → get_elem? cells i ≡ some c
      → get_elem? cells j ≡ some c'
      → key_cmp c.key c'.key ≡ negative

abbrev pub Below : Bytes → List Cell → ℕ → Type 0
Below key cells idx =
    (j : ℕ) (c : Cell) → get_elem? cells j ≡ some c → j < idx → key_cmp key c.key ≡ positive

abbrev pub Above : Bytes → List Cell → ℕ → Type 0
Above key cells idx =
    (j : ℕ) (c : Cell) → get_elem? cells j ≡ some c → idx ≤ j → key_cmp key c.key ≡ negative

-- A place with the key, or the one place where it can be inserted: every smaller key stands
-- before it, and every greater key from it on.
abbrev pub Located : Bytes → List Cell → ℕ × Bool → Type 0
Located key cells (idx, true) = (c : Cell) × (get_elem? cells idx ≡ some c) × (c.key ≡ key)
Located key cells (idx, false) = (idx ≤ length cells) × Below key cells idx × Above key cells idx

module _ (pg : Page) (cells : List Cell) (key : Bytes) (h : Holds pg cells)
    (sorted : IsSorted cells) where
  Above-mid :
      (mid : ℕ) (c : Cell)
      → get_elem? cells mid ≡ some c
      → key_cmp key c.key ≡ negative
      → Above key cells mid
  Above-mid mid c at s j c' found le = elim (lt-or-eq mid j le) [
    | inl lt ↦ (key_cmp_order key c.key c'.key).2 s (sorted.ascending mid j c c' lt at found)
    | inr same ↦ let e : c' ≡ c = cc (at, found, same) in rw e s
  ]

  Below-mid :
      (mid : ℕ) (c : Cell)
      → get_elem? cells mid ≡ some c
      → key_cmp key c.key ≡ positive
      → Below key cells (mid + 1)
  Below-mid mid c at s j c' found lt = elim (lt-or-eq j mid (omega arith)) [
    | inl lt' ↦
        let greater : key_cmp c.key key ≡ negative =
          (key_cmp_order key c.key key).1 ∙ ap opposite s in
        let less =
          (key_cmp_order c'.key c.key key).2 (sorted.ascending j mid c' c lt' found at) greater in
        (key_cmp_order c'.key key key).1 ∙ ap opposite less
    | inr same ↦ let e : c' ≡ c = cc (at, found, same) in rw e s
  ]

  search_loop-Located :
      (fuel lo hi : ℕ)
      → hi - lo < fuel
      → lo ≤ hi
      → hi ≤ length cells
      → Below key cells lo
      → Above key cells hi
      → (r : ℕ × Bool) × (search_loop fuel pg.bytes key lo hi ≡ ok r) × Located key cells r
  unfolding search_loop
  search_loop-Located zero lo hi enough le in_range below above = absurd (omega arith)
  search_loop-Located (suc fuel) lo hi enough le in_range below above =
      elim (Bool-cases (leb hi lo)) [
        | inl done ↦
            let e : lo ≡ hi = ground arith in
            ((lo, false), rw done, (omega arith, below, rw e above))
        | inr more ↦
            let open_ : lo < hi = ground arith in
            let mid = (lo + hi - 1) / 2 in
            let (c, at) = get_elem?_of_lt cells mid (omega arith) in
            let compared = compare_slot-Holds pg cells key mid c h at in
            elim (Sign-cases (key_cmp key c.key)) [
              | inl less ↦
                  rw (more, compared, less)
                    (search_loop-Located fuel lo mid (omega arith) (omega arith) (omega arith) below
                      (Above-mid mid c at less))
              | inr (inl same) ↦ (
                (mid, true),
                rw (more, compared, same),
                (c, at, sym (eq_of_key_cmp key c.key same)),
              )
              | inr (inr greater) ↦
                  rw (more, compared, greater)
                    (search_loop-Located fuel (mid + 1) hi (omega arith) (omega arith) in_range
                      (Below-mid mid c at greater) above)
            ]
      ]

-- On a page that holds cells in the order of their keys, the search ends within its fuel and
-- reads nothing outside the page. It reports a place that has the key, or else the place where
-- the key belongs: all keys before are smaller, and all from there on are greater.
pub page_binary_search-Located :
    (pg : Page) (cells : List Cell) (key : Bytes)
    → Holds pg cells
    → IsSorted cells
    → (r : ℕ × Bool) × (page_binary_search pg key ≡ ok r) × Located key cells r
unfolding page_binary_search
page_binary_search-Located pg cells key h sorted = rw h.count (
    search_loop-Located pg cells key h sorted (length cells + 1) 0 (length cells) (omega arith)
      (omega arith) (omega arith) (λ j c found lt. absurd (omega arith))
      (λ j c found le. absurd (omega (arith, lt_of_get_elem? cells j found))))
