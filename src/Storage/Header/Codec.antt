-- ===== src/Storage/Header/Codec.antt =====
-- `DecodeHeader` against `Encode`.
use sqlgo.Base.{◌^◌, ◌<◌, ◌≡◌, arith, Bytes, [], ◌∷◌, ◌++◌, ok, length}
use sqlgo.Base.Word.{put_uint32, uint32-put}
use sqlgo.Storage.Header.{DbHeader, encode_header, decode_header}

pub record IsEncodable (h : DbHeader) : Type 0 where
  pub magic_size : length h.magic ≡ 8
  pub version_fits : h.version < 2 ^ 32
  pub page_bytes_fits : h.page_bytes < 2 ^ 32
  pub page_count_fits : h.page_count < 2 ^ 32
  pub free_list_fits : h.free_list < 2 ^ 32
  pub root_page_fits : h.root_page < 2 ^ 32
  pub schema_page_fits : h.schema_page < 2 ^ 32

decode-encode_magic :
    (m : Bytes) (h : DbHeader) (rest : Bytes)
    → length m ≡ 8
    → IsEncodable h
    → decode_header (encode_header (record h { magic = m }) ++ rest) ≡ ok (record h { magic = m })
unfolding encode_header decode_header put_uint32
decode-encode_magic (a ∷ b ∷ c ∷ d ∷ e ∷ f ∷ g ∷ i ∷ []) h rest size fits =
    rw
      (
        uint32-put h.version fits.version_fits,
        uint32-put h.page_bytes fits.page_bytes_fits,
        uint32-put h.page_count fits.page_count_fits,
        uint32-put h.free_list fits.free_list_fits,
        uint32-put h.root_page fits.root_page_fits,
        uint32-put h.schema_page fits.schema_page_fits,
      )
      (ground arith)
decode-encode_magic _ h rest size fits = absurd (omega arith)

-- The header is read back from the page that `FlushAll` writes it to: the padding behind it, or
-- any other bytes, change nothing.
pub decode-encode_header :
    (h : DbHeader) (rest : Bytes) → IsEncodable h → decode_header (encode_header h ++ rest) ≡ ok h
decode-encode_header h rest fits = decode-encode_magic h.magic h rest fits.magic_size fits
