-- ===== src/Storage/Row/RoundTrip.antt =====
-- What `DecodeRow` makes of what `EncodeRow` wrote.
use mathlib.Core.List.{append_assoc, append-nil}
use sqlgo.Base.{
  ℕ, zero, suc, ◌+◌, ◌%◌, ◌^◌, ◌≤◌, ◌<◌, ◌≡◌, refl, ap, ◌∙◌, arith, Bytes, length, [], ◌∷◌, ◌++◌,
  take, ok, ◌>>=◌, All, le→ltb, lt→ltb, ltb, ◌-◌, inl, inr, Bool-cases, length-append,
  take-length-append, drop-length-append, take-length,
}
use sqlgo.Base.Word.{
  uint16-put, uint32-put, put_uint16, put_uint32, encode_uint64_be, decode-encode_uint64_be,
}
use sqlgo.Storage.Buffer.{length-take_le}
use sqlgo.Storage.Header.{zeros}
use sqlgo.Storage.Page.Clear.{length-zeros}
use sqlgo.Storage.Value.{Value, null, integer, real, text, blob, IsStorable}
use sqlgo.Storage.Row.{
  Row, copied, encode_value, encode_part, encode_parts, encode_row, decode_value, decode_columns,
  decode_row,
}

length-encode_uint64_be : (v : ℕ) → length (encode_uint64_be v) ≡ 8
unfolding encode_uint64_be
length-encode_uint64_be v = refl

pub length-copied : (b : Bytes) → length (copied b) ≡ length b
unfolding copied
length-copied b = elim (Bool-cases (ltb (length b % 2 ^ 32) (2 ^ 31))) [
  | inl short ↦
      let n = length b % 2 ^ 32 in
      let whole : length (take n b ++ zeros (length b - n)) ≡ length b = omega (
        arith,
        length-append (take n b) (zeros (length b - n)),
        length-take_le n b,
        length-zeros (length b - n),
      ) in
      rw short whole
  | inr long ↦ rw long (length-zeros (length b))
]

copied_short : (b : Bytes) → length b < 2 ^ 31 → copied b ≡ b
unfolding copied
copied_short b h =
    let whole : length b % 2 ^ 32 ≡ length b = omega arith in
    let none_left : length b - length b ≡ 0 = omega arith in
    rw (whole, lt→ltb (length b) (2 ^ 31) h, none_left, take-length b) (append-nil b)

payload-lt : (v : Value) → IsStorable v → length (encode_value v).1 < 2 ^ 32
unfolding encode_value
payload-lt null h = omega arith
payload-lt (integer v) h = omega (arith, length-encode_uint64_be v)
payload-lt (real v) h = omega (arith, length-encode_uint64_be v)
payload-lt (text s) h = omega (arith, length-copied s)
payload-lt (blob b) h = omega (arith, length-copied b)

decode-encode_value :
    (v : Value) → IsStorable v → decode_value (encode_value v).0 (encode_value v).1 ≡ ok v
unfolding encode_value decode_value
decode-encode_value null h = refl
decode-encode_value (integer v) h =
    ground (arith, length-encode_uint64_be v, decode-encode_uint64_be v)
decode-encode_value (real v) h =
    ground (arith, length-encode_uint64_be v, decode-encode_uint64_be v)
decode-encode_value (text s) h = rw (copied_short s h) refl
decode-encode_value (blob b) h = rw (copied_short b h) (rw (copied_short b h) refl)

-- The part of one value is read back, and the loop goes on behind it.
decode_columns-encode_part :
    (n i : ℕ) (v : Value) (rest : Bytes)
    → IsStorable v
    → decode_columns (suc n) i (encode_part (encode_value v) ++ rest)
      ≡ (do row ← decode_columns n (i + 1) rest; ok (v ∷ row))
unfolding encode_part decode_columns put_uint32
decode_columns-encode_part n i v rest h =
    let payload = (encode_value v).1 in
    let fits = payload-lt v h in
    let size : length payload % 2 ^ 32 ≡ length payload = omega arith in
    rw (
      size,
      uint32-put (length payload) fits,
      take-length-append payload rest,
      drop-length-append payload rest,
      decode-encode_value v h,
      le→ltb (length (payload ++ rest)) (length payload)
          (omega (arith, length-append payload rest)),
    )

decode_columns-encode_parts :
    (n i : ℕ) (row : Row) (rest : Bytes)
    → n ≤ length row
    → All IsStorable row
    → decode_columns n i (encode_parts row ++ rest) ≡ ok (take n row)
unfolding encode_parts
decode_columns-encode_parts zero i row rest h s = unfold decode_columns in refl
decode_columns-encode_parts (suc n) i [] rest h s = absurd (omega arith)
decode_columns-encode_parts (suc n) i (v ∷ row) rest h s = rw (
  append_assoc (encode_part (encode_value v)) (encode_parts row) rest,
  decode_columns-encode_part n i v (encode_parts row ++ rest) s.0,
  decode_columns-encode_parts n (i + 1) row rest (omega arith) s.1,
)

-- Whatever follows the encoding of a row whose texts and blobs are shorter than 2^31 bytes,
-- `DecodeRow` returns its first `len % 2^16` values: the 16-bit column count wraps.
pub decode-encode_row :
    (row : Row) (rest : Bytes)
    → All IsStorable row
    → decode_row (encode_row row ++ rest) ≡ ok (take (length row % 2 ^ 16) row)
unfolding encode_row decode_row put_uint16
decode-encode_row row rest s =
    rw (uint16-put (length row % 2 ^ 16) (omega arith))
      (decode_columns-encode_parts _ 0 row rest (omega arith) s)

pub decode-encode_row_fits :
    (row : Row) (rest : Bytes)
    → All IsStorable row
    → length row < 2 ^ 16
    → decode_row (encode_row row ++ rest) ≡ ok row
decode-encode_row_fits row rest s h =
    let e : length row % 2 ^ 16 ≡ length row = omega arith in
    decode-encode_row row rest s ∙ ap ok (rw e (take-length row))
