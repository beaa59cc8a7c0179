-- ===== src/Storage/Pager/Open.antt =====
-- internal/storage/pager.go: `initDB` and `loadHeader`, for a new file and one that is there.
use sqlgo.Base.{
  ◌-◌, ◌≡◌, refl, arith, false, Bytes, [], ◌∷◌, length, take, Option, some, none, Result, ok, err,
  bytes_eq, if◌then◌else◌, Bool-cases, inl, inr,
}
use sqlgo.Storage.Header.{
  DbHeader, HeaderError, decode_header, page_size, header_size, invalid_page, zeros,
}
use sqlgo.Storage.Header.Codec.{IsEncodable, decode-encode_header}
use sqlgo.Storage.Page.{
  Page, type_leaf, set_type, set_cell_count, set_cell_content_offset, set_rightmost_pointer,
}
use sqlgo.Storage.Page.Layout.{Holds}
use sqlgo.Storage.Page.Clear.{emptied-Holds, length-zeros}
use sqlgo.Storage.Pager.{
  Disk, PagerError, read_failed, write_failed, write_at, write_page, padded_header, blank,
}

pub data OpenError : Type 0 where
  pager_error : PagerError → OpenError
  header_error : HeaderError → OpenError
  no_magic : OpenError

-- "SQLGO"
abbrev pub magic_string : Bytes
magic_string = 83 ∷ 81 ∷ 76 ∷ 71 ∷ 79 ∷ []

abbrev pub initial_header : DbHeader
initial_header = record {
  magic = 83 ∷ 81 ∷ 76 ∷ 71 ∷ 79 ∷ 0 ∷ 0 ∷ 0 ∷ [];
  version = 3;
  page_bytes = page_size;
  page_count = 2;
  free_list = invalid_page;
  root_page = invalid_page;
  schema_page = 1;
}

abbrev pub initial_schema_page : Page
initial_schema_page =
    set_rightmost_pointer
      (set_cell_content_offset (set_cell_count (set_type (blank 1) type_leaf) 0) page_size)
      invalid_page

unfoldable pub init_db : Disk → Result PagerError (Unit {0}) × Disk
init_db d =
    if d.write_fails 0
    then (err (write_failed 0), d)
    else write_page initial_schema_page (write_at d 0 (padded_header initial_header))

abbrev pub check_magic : Result HeaderError DbHeader → Result OpenError DbHeader
check_magic (err e) = err (header_error e)
check_magic (ok h) = if bytes_eq (take 5 h.magic) magic_string then ok h else err no_magic

-- Where the file ends before page 0, the buffer keeps its zeros.
abbrev pub buffer_of : Option Bytes → Bytes
buffer_of none = zeros page_size
buffer_of (some bytes) = bytes

unfoldable pub load_header : Disk → Result OpenError DbHeader
load_header d =
    if d.read_fails 0
    then err (pager_error (read_failed 0))
    else check_magic (decode_header (buffer_of (d.page 0)))

initial-IsEncodable : IsEncodable initial_header
initial-IsEncodable = record {
  magic_size = refl;
  version_fits = omega arith;
  page_bytes_fits = omega arith;
  page_count_fits = omega arith;
  free_list_fits = omega arith;
  root_page_fits = omega arith;
  schema_page_fits = omega arith;
}

schema_id : initial_schema_page.id ≡ 1
unfolding set_type set_cell_count set_cell_content_offset set_rightmost_pointer blank
schema_id = refl

init_db_lem :
    (d : Disk)
    → (init_db d).0 ≡ ok tt
    → (init_db d).1
      ≡ write_at (write_at d 0 (padded_header initial_header)) 1 initial_schema_page.bytes
unfolding init_db write_page write_at
init_db_lem d h = elim (Bool-cases (d.write_fails 0)) [
  | inl fails ↦ absurd (ground (arith, h, fails))
  | inr works ↦ elim (Bool-cases (d.write_fails 1)) [
    | inl fails ↦ absurd (cc (rw (works, schema_id, fails) at h))
    | inr works' ↦ rw (works, schema_id, works') refl
  ]
]

written_header : decode_header (padded_header initial_header) ≡ ok initial_header
unfolding padded_header
written_header =
    decode-encode_header initial_header (zeros (page_size - header_size)) initial-IsEncodable

blank_size : length (blank 1).bytes ≡ 4096
unfolding blank
blank_size = length-zeros 4096

-- After `initDB` has succeeded, and where page 0 can be read, `loadHeader` reads from the file the
-- header that it wrote, and page 1 is the page of the schema, without a cell.
pub load_header-init_db :
    (d : Disk)
    → (init_db d).0 ≡ ok tt
    → d.read_fails 0 ≡ false
    → (load_header (init_db d).1 ≡ ok initial_header)
      × ((init_db d).1.page 1 ≡ some initial_schema_page.bytes)
      × Holds initial_schema_page []
unfolding load_header write_at
load_header-init_db d h reads =
    let e = init_db_lem d h in
    rw e (
      rw reads (rw written_header refl),
      refl,
      (emptied-Holds (blank 1) type_leaf invalid_page blank_size).0,
    )
