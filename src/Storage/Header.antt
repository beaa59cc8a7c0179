-- ===== src/Storage/Header.antt =====
-- internal/storage/pager.go: `DBHeader`, `Encode`, `DecodeHeader`.
pub mod Codec
use sqlgo.Base.{
  ℕ, ◌+◌, Bytes, [], ◌∷◌, ◌++◌, Result, ok, err, take, drop, length, ltb, if◌then◌else◌,
}
use sqlgo.Base.Word.{put_uint32, uint32}

abbrev pub page_size : ℕ
page_size = 4096

abbrev pub header_size : ℕ
header_size = 100

-- `^uint32(0)`
abbrev pub invalid_page : ℕ
invalid_page = 0xffff_ffff

-- `magic` is a `[8]byte`.
pub record DbHeader : Type 0 where
  pub magic : Bytes
  pub version : ℕ
  pub page_bytes : ℕ
  pub page_count : ℕ
  pub free_list : ℕ
  pub root_page : ℕ
  pub schema_page : ℕ

pub data HeaderError : Type 0 where
  corrupted_db : HeaderError

abbrev pub zeros : ℕ → Bytes
zeros ℕ.zero = []
zeros (ℕ.suc n) = 0 ∷ zeros n

unfoldable pub encode_header : DbHeader → Bytes
encode_header h =
    h.magic
    ++ (put_uint32 h.version
        ++ (put_uint32 h.page_bytes
            ++ (put_uint32 h.page_count
                ++ (put_uint32 h.free_list
                    ++ (put_uint32 h.root_page ++ (put_uint32 h.schema_page ++ zeros 68))))))

-- `binary.BigEndian.Uint32(buf[at:at+4])`; the guard on the length makes the last clause dead.
unfoldable pub uint32_at : Bytes → ℕ → ℕ
uint32_at buf at = elim (drop at buf) [ a ∷ b ∷ c ∷ d ∷ _ ↦ uint32 a b c d | _ ↦ 0 ]

unfoldable pub decode_header : Bytes → Result HeaderError DbHeader
unfolding uint32_at
decode_header buf =
    if ltb (length buf) header_size
    then err corrupted_db
    else ok (record {
      magic = take 8 buf;
      version = uint32_at buf 8;
      page_bytes = uint32_at buf 12;
      page_count = uint32_at buf 16;
      free_list = uint32_at buf 20;
      root_page = uint32_at buf 24;
      schema_page = uint32_at buf 28;
    })
