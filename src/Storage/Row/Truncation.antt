-- ===== src/Storage/Row/Truncation.antt =====
-- `DecodeRow` on a row that was cut short.
use mathlib.Core.List.{append-nil}
use sqlgo.Base.{
  ℕ, zero, suc, ◌+◌, ◌^◌, ◌≤◌, ◌<◌, ◌≡◌, sym, ap, ◌∙◌, arith, Bytes, length, [], ◌∷◌, ◌++◌, take,
  drop, ok, err, fail_if, All, ltb, le→ltb, length-append, take-append_of_le, drop-append_of_le,
  length-take-drop, ok_of_bind, Result-cases, inl, inr,
}
use sqlgo.Base.Word.{uint32, put_uint16, put_uint32, encode_uint64_be}
use sqlgo.Storage.Value.{Value, text, blob, IsStorable}
use sqlgo.Storage.Row.{
  Row, copied, DecodeError, encode_value, encode_part, encode_parts, encode_row, decode_value,
  decode_columns, decode_row,
}
use sqlgo.Storage.Row.RoundTrip.{length-copied, decode-encode_row_fits}

-- What a successful decoding of a column says of the data.
decode_columns_inv :
    (n i : ℕ) (tag a b c d : ℕ) (rest : Bytes) {row : Row}
    → decode_columns (suc n) i (tag ∷ a ∷ b ∷ c ∷ d ∷ rest) ≡ ok row
    → (v : Value) × (row' : Row) × (uint32 a b c d ≤ length rest)
      × (decode_value tag (take (uint32 a b c d) rest) ≡ ok v)
      × (decode_columns n (i + 1) (drop (uint32 a b c d) rest) ≡ ok row')
      × (row ≡ v ∷ row')
unfolding decode_columns
decode_columns_inv n i tag a b c d rest h =
    let vlen = uint32 a b c d in
    let (_, short, h1) = ok_of_bind (fail_if (ltb (length rest) vlen) _) _ h in
    let (v, hv, h2) = ok_of_bind (decode_value tag (take vlen rest)) _ h1 in
    let (row', hr, h3) = ok_of_bind (decode_columns n (i + 1) (drop vlen rest)) _ h2 in
    (v, row', ground arith, hv, hr, cc)

decode_columns_step :
    (n i : ℕ) (tag a b c d : ℕ) (rest : Bytes) (v : Value) (row : Row)
    → uint32 a b c d ≤ length rest
    → decode_value tag (take (uint32 a b c d) rest) ≡ ok v
    → decode_columns n (i + 1) (drop (uint32 a b c d) rest) ≡ ok row
    → decode_columns (suc n) i (tag ∷ a ∷ b ∷ c ∷ d ∷ rest) ≡ ok (v ∷ row)
unfolding decode_columns
decode_columns_step n i tag a b c d rest v row fits hv hr =
    rw (le→ltb (length rest) (uint32 a b c d) fits, hv, hr)

-- More data behind a row that was decoded changes nothing.
decode_columns-append :
    (n i : ℕ) (data_ more : Bytes) {row : Row}
    → decode_columns n i data_ ≡ ok row
    → decode_columns n i (data_ ++ more) ≡ ok row
decode_columns-append zero i data_ more h = unfold decode_columns in h
decode_columns-append (suc n) i (tag ∷ a ∷ b ∷ c ∷ d ∷ rest) more h =
    let (v, row', fits, hv, hr, e) = decode_columns_inv n i tag a b c d rest h in
    let vlen = uint32 a b c d in
    decode_columns_step n i tag a b c d (rest ++ more) v row'
      (omega (arith, length-append rest more)) (rw (take-append_of_le vlen rest more fits) hv)
      (rw (drop-append_of_le vlen rest more fits) (decode_columns-append n (i + 1) _ more hr))
    ∙ ap ok (sym e)
decode_columns-append (suc n) i _ more h = unfold decode_columns in cc

length-encode_value :
    (tag : ℕ) (payload : Bytes) (v : Value)
    → decode_value tag payload ≡ ok v
    → length (encode_value v).1 ≤ length payload
unfolding decode_value encode_value encode_uint64_be
length-encode_value zero payload v h = ground arith
length-encode_value (suc zero) payload v h = ground arith
length-encode_value (suc (suc zero)) payload v h = ground arith
length-encode_value (suc (suc (suc zero))) payload v h =
    let e : v ≡ text payload = cc in rw e (omega (arith, length-copied payload))
length-encode_value (suc (suc (suc (suc zero)))) payload v h =
    let e : v ≡ blob (copied payload) = cc in
    rw e (omega (arith, length-copied payload, length-copied (copied payload)))
length-encode_value (suc (suc (suc (suc (suc n))))) payload v h = cc

length-encode_part : (p : ℕ × Bytes) → length (encode_part p) ≡ 5 + length p.1
unfolding encode_part put_uint32
length-encode_part p = omega arith

-- A row is never longer when encoded than the data that it was decoded from.
length-encode_parts-le :
    (n i : ℕ) (data_ : Bytes) {row : Row}
    → decode_columns n i data_ ≡ ok row
    → length (encode_parts row) ≤ length data_
unfolding encode_parts
length-encode_parts-le zero i data_ {row} h =
    let e : row ≡ [] = unfold decode_columns in ground arith in rw e (omega arith)
length-encode_parts-le (suc n) i (tag ∷ a ∷ b ∷ c ∷ d ∷ rest) h =
    let (v, row', fits, hv, hr, e) = decode_columns_inv n i tag a b c d rest h in
    let vlen = uint32 a b c d in
    rw e (
      omega (
        arith,
        length-append (encode_part (encode_value v)) (encode_parts row'),
        length-encode_part (encode_value v),
        length-encode_value tag (take vlen rest) v hv,
        length-encode_parts-le n (i + 1) (drop vlen rest) hr,
        length-take-drop vlen rest,
      ))
length-encode_parts-le (suc n) i _ h = unfold decode_columns in cc

decode_row-append :
    (data_ more : Bytes) {row : Row}
    → decode_row data_ ≡ ok row
    → decode_row (data_ ++ more) ≡ ok row
unfolding decode_row
decode_row-append (a ∷ b ∷ rest) more h = decode_columns-append _ 0 rest more h
decode_row-append _ more h = cc

length-encode_row-le :
    (data_ : Bytes) {row : Row} → decode_row data_ ≡ ok row → length (encode_row row) ≤ length data_
unfolding decode_row encode_row put_uint16
length-encode_row-le (a ∷ b ∷ rest) h = omega (arith, length-encode_parts-le _ 0 rest h)
length-encode_row-le _ h = cc

-- A row of at most 65535 columns whose texts and blobs are shorter than 2^31 bytes: cut anywhere
-- before its end, its encoding is refused with an error, so that it is never taken for another row.
pub decode_row_truncated :
    (row : Row) (front : Bytes) (x : ℕ) (back : Bytes)
    → All IsStorable row
    → length row < 2 ^ 16
    → encode_row row ≡ front ++ x ∷ back
    → (e : DecodeError) × (decode_row front ≡ err e)
decode_row_truncated row front x back s h cut = elim (Result-cases (decode_row front)) [
  | inl refused ↦ refused
  | inr (other, read) ↦
      let whole = decode_row-append front (x ∷ back) read in
      let again : decode_row (encode_row row) ≡ ok row =
        cc (decode-encode_row_fits row [] s h, append-nil (encode_row row)) in
      let e : other ≡ row = cc (again, whole, cut) in
      absurd (
        omega (
          arith,
          ap length cut,
          length-append front (x ∷ back),
          length-encode_row-le front read,
          ap (λ (r : Row). length (encode_row r)) e,
        ))
]
