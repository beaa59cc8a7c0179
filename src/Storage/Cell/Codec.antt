-- ===== src/Storage/Cell/Codec.antt =====
-- `DecodeCell` against `EncodeCell`.
use mathlib.Core.List.{append_assoc}
use sqlgo.Base.{
  ◌+◌, ◌%◌, ◌^◌, ◌<◌, ◌≡◌, arith, Bytes, length, ◌++◌, ok, le→ltb, length-append,
  take-length-append, drop-length-append, take-length,
}
use sqlgo.Base.Word.{put_uint16, uint16-put, put_uint32, uint32-put}
use sqlgo.Storage.Cell.{Cell, encode_cell, decode_cell, decode_cell_here, decode_cell_data}

-- Lengths that 16 bits hold, and a page number that 32 bits hold.
pub record IsEncodable (c : Cell) : Type 0 where
  pub key_fits : length c.key < 2 ^ 16
  pub value_fits : length c.value < 2 ^ 16
  pub pointer_fits : c.left_ptr < 2 ^ 32

decode_cell_data-append :
    (c : Cell) (post : Bytes)
    → decode_cell_data c.left_ptr (length c.key) (length c.value) ((c.key ++ c.value) ++ post)
      ≡ ok c
unfolding decode_cell_data
decode_cell_data-append c post = rw (
  append_assoc c.key c.value post,
  le→ltb (length (c.key ++ (c.value ++ post))) (length c.key + length c.value)
      (omega (arith, length-append c.key (c.value ++ post), length-append c.value post)),
  take-length-append c.key (c.value ++ post),
  drop-length-append c.key (c.value ++ post),
  take-length-append c.value post,
)

pub decode_cell_here-encode_cell :
    (c : Cell) (post : Bytes) → IsEncodable c → decode_cell_here (encode_cell c ++ post) ≡ ok c
unfolding decode_cell_here encode_cell put_uint16 put_uint32
decode_cell_here-encode_cell c post h =
    let k : length c.key % 2 ^ 16 ≡ length c.key = omega arith in
    let v : length c.value % 2 ^ 16 ≡ length c.value = omega arith in
    rw
      (
        k,
        v,
        uint32-put c.left_ptr h.pointer_fits,
        uint16-put (length c.key) h.key_fits,
        uint16-put (length c.value) h.value_fits,
        take-length c.key,
        take-length c.value,
      )
      (decode_cell_data-append c post)

-- A cell whose lengths fit 16 bits, written at any offset of a page, is read back from that offset,
-- whatever stands around it.
pub decode-encode_cell :
    (before after : Bytes) (c : Cell)
    → IsEncodable c
    → decode_cell (before ++ (encode_cell c ++ after)) (length before) ≡ ok c
unfolding decode_cell
decode-encode_cell before after c h =
    rw (drop-length-append before (encode_cell c ++ after)) (decode_cell_here-encode_cell c after h)

pub length-encode_cell :
    (c : Cell) → IsEncodable c → length (encode_cell c) ≡ 8 + length c.key + length c.value
unfolding encode_cell put_uint16 put_uint32
length-encode_cell c h =
    let k : length c.key % 2 ^ 16 ≡ length c.key = omega arith in
    let v : length c.value % 2 ^ 16 ≡ length c.value = omega arith in
    rw (k, v, take-length c.key, take-length c.value) (omega (arith, length-append c.key c.value))

-- The encoding of a cell whose lengths fit.
pub encode_cell_lem :
    (c : Cell)
    → IsEncodable c
    → encode_cell c
      ≡ put_uint32 c.left_ptr
        ++ (put_uint16 (length c.key) ++ (put_uint16 (length c.value) ++ (c.key ++ c.value)))
unfolding encode_cell
encode_cell_lem c h =
    let k : length c.key % 2 ^ 16 ≡ length c.key = omega arith in
    let v : length c.value % 2 ^ 16 ≡ length c.value = omega arith in
    rw (k, v, take-length c.key, take-length c.value)
