-- ===== src/Storage/Row.antt =====
-- internal/storage/row.go: `EncodeRow` and `DecodeRow`. The offset of the loop is replaced by the
-- slice that it points at, `data[offset:]`.
pub mod RoundTrip
pub mod Truncation
use sqlgo.Base.{
  ℕ, zero, suc, ◌+◌, ◌-◌, ◌%◌, ◌^◌, Bytes, Bool, length, List, [], ◌∷◌, ◌++◌, take, drop, ltb,
  Result, ok, err, ◌>>=◌, ◌>>◌, fail_if, if◌then◌else◌,
}
use sqlgo.Base.Word.{put_uint16, uint16, put_uint32, uint32, encode_uint64_be, decode_uint64_be}
use sqlgo.Storage.Header.{zeros}
use sqlgo.Storage.Value.{Value, null, integer, real, text, blob}

pub data DecodeError : Type 0 where
  row_too_short value_truncated integer_too_short real_too_short : DecodeError
  column_truncated : ℕ → DecodeError
  unknown_type : ℕ → DecodeError

abbrev pub Row : Type 0
Row = List Value

-- `cCopyBytes` of `b` into a new buffer of its length, which is zeroed. `C.int(len(src))` is the
-- length cut to 32 bits, and nothing is copied where that is negative.
unfoldable pub copied : Bytes → Bytes
copied b =
    let n = length b % 2 ^ 32 in
    if ltb n (2 ^ 31) then take n b ++ zeros (length b - n) else zeros (length b)

-- The type byte and the payload.
unfoldable pub encode_value : Value → ℕ × Bytes
unfolding copied
encode_value null = (0, [])
encode_value (integer v) = (1, encode_uint64_be v)
encode_value (real v) = (2, encode_uint64_be v)
encode_value (text s) = (3, copied s)
encode_value (blob b) = (4, copied b)

-- `typeAndLen` and `p[1:]`.
unfoldable pub encode_part : ℕ × Bytes → Bytes
encode_part (tag, payload) = tag ∷ put_uint32 (length payload % 2 ^ 32) ++ payload

unfoldable pub encode_parts : Row → Bytes
unfolding encode_value encode_part
encode_parts [] = []
encode_parts (v ∷ row) = encode_part (encode_value v) ++ encode_parts row

unfoldable pub encode_row : Row → Bytes
unfolding encode_parts
encode_row row = put_uint16 (length row % 2 ^ 16) ++ encode_parts row

unfoldable pub decode_value : ℕ → Bytes → Result DecodeError Value
unfolding copied
decode_value zero data_ = ok null
decode_value (suc zero) data_ =
    if ltb (length data_) 8 then err integer_too_short else ok (integer (decode_uint64_be data_))
decode_value (suc (suc zero)) data_ =
    if ltb (length data_) 8 then err real_too_short else ok (real (decode_uint64_be data_))
decode_value (suc (suc (suc zero))) data_ = ok (text data_)
decode_value (suc (suc (suc (suc zero)))) data_ = ok (blob (copied data_))
decode_value (suc (suc (suc (suc (suc n))))) data_ = err (unknown_type (n + 5))

-- The loop, with the columns left, the index of the column and what is left of the data.
unfoldable pub decode_columns : ℕ → ℕ → Bytes → Result DecodeError Row
decode_columns zero i rest = ok []
decode_columns (suc n) i (tag ∷ a ∷ b ∷ c ∷ d ∷ rest) =
    let vlen = uint32 a b c d in
    do
      fail_if (ltb (length rest) vlen) value_truncated
      v ← decode_value tag (take vlen rest)
      row ← decode_columns n (i + 1) (drop vlen rest)
      ok (v ∷ row)
decode_columns (suc n) i _ = err (column_truncated i)

unfoldable pub decode_row : Bytes → Result DecodeError Row
decode_row (a ∷ b ∷ rest) = decode_columns (uint16 a b) 0 rest
decode_row _ = err row_too_short
