-- ===== src/Storage/Cell.antt =====
-- internal/storage/btree.go: `Cell`, `EncodeCell`, `DecodeCell`, `keyCmp`, with the C routines of
-- internal/storage/ops.c that they call.
pub mod Codec
pub mod KeyOrder
use sqlgo.Base.{
  ℕ, zero, suc, ◌+◌, ◌%◌, ◌^◌, Bytes, length, [], ◌∷◌, ◌++◌, take, drop, Result, ok, err, ◌>>=◌,
  ◌>>◌, fail_if, ltb, if◌then◌else◌, ◌==◌,
}
use sqlgo.Base.Word.{put_uint16, uint16, put_uint32, uint32}

pub record Cell : Type 0 where
  pub key : Bytes
  pub value : Bytes
  pub left_ptr : ℕ

pub data CellError : Type 0 where
  offset_out_of_bounds data_out_of_bounds : CellError

-- The lengths are cut to 16 bits before anything is copied, so the copies are cut too.
unfoldable pub encode_cell : Cell → Bytes
encode_cell c =
    let key_len = length c.key % 2 ^ 16 in
    let val_len = length c.value % 2 ^ 16 in
    put_uint32 c.left_ptr
    ++ (put_uint16 key_len ++ (put_uint16 val_len ++ (take key_len c.key ++ take val_len c.value)))

-- `data[dataStart:dataStart+keyLen]` and the slice behind it, after the bound on `end`.
unfoldable pub decode_cell_data : ℕ → ℕ → ℕ → Bytes → Result CellError Cell
decode_cell_data left_ptr key_len val_len rest = do
  fail_if (ltb (length rest) (key_len + val_len)) data_out_of_bounds
  ok (record {
    key = take key_len rest;
    value = take val_len (drop key_len rest);
    left_ptr = left_ptr;
  })

-- The cell that starts the slice, `data[offset:]`.
unfoldable pub decode_cell_here : Bytes → Result CellError Cell
unfolding decode_cell_data
decode_cell_here (a ∷ b ∷ c ∷ d ∷ e ∷ f ∷ g ∷ h ∷ rest) =
    decode_cell_data (uint32 a b c d) (uint16 e f) (uint16 g h) rest
decode_cell_here _ = err offset_out_of_bounds

unfoldable pub decode_cell : Bytes → ℕ → Result CellError Cell
unfolding decode_cell_here
decode_cell data_ offset = decode_cell_here (drop offset data_)

-- The sign of the C comparison.
pub data Sign : Type 0 where
  negative equal positive : Sign

-- `memcmp` over the first `n` bytes of both.
unfoldable pub memcmp : ℕ → Bytes → Bytes → Sign
memcmp (suc n) (x ∷ xs) (y ∷ ys) =
    if ltb x y then negative else if ltb y x then positive else memcmp n xs ys
memcmp _ _ _ = equal

unfoldable pub cmp_length : ℕ → ℕ → Sign
cmp_length alen blen = if ltb alen blen then negative else if ltb blen alen then positive else equal

-- A comparison that the bytes decide, or else the lengths.
unfoldable pub or_length : Sign → ℕ → ℕ → Sign
unfolding cmp_length
or_length equal alen blen = cmp_length alen blen
or_length r alen blen = r

-- For keys shorter than 2 ^ 31 bytes, whose lengths `C.int` leaves as they are.
unfoldable pub key_cmp : Bytes → Bytes → Sign
unfolding memcmp or_length
key_cmp a b =
    let minlen = if ltb (length a) (length b) then length a else length b in
    or_length (memcmp minlen a b) (length a) (length b)
