-- ===== src/Storage/Page/Copy.antt =====
-- internal/storage/ops.go: `cCopyBytes` into a page.
use sqlgo.Base.{
  ℕ, ◌+◌, ◌≤◌, ◌<◌, ◌≡◌, refl, arith, true, false, Bytes, length, le→ltb, lt→ltb, ok, err, ◌==◌,
  ◌||◌,
}
use sqlgo.Storage.Buffer.{write}
use sqlgo.Base.Word.{put_uint32}
use sqlgo.Storage.Cell.{Cell, encode_cell}
use sqlgo.Storage.Page.{Page, copy_into, panic, overrun}

pub encode_cell-some : (c : Cell) → 0 < length (encode_cell c)
unfolding encode_cell put_uint32
encode_cell-some c = omega arith

module _ (pg : Page) (off : ℕ) (bs : Bytes) where
  nonempty_ahead :
      0 < length bs → off < length pg.bytes → (length bs == 0 || off == length pg.bytes) ≡ false
  nonempty_ahead some_ in_ = ground arith

  pub copy_into-fits :
      0 < length bs
      → off + length bs ≤ length pg.bytes
      → copy_into pg off bs ≡ ok (record pg { bytes = write pg.bytes off bs })
  unfolding copy_into
  copy_into-fits some_ fits = rw (
    le→ltb (length pg.bytes) off (omega arith),
    nonempty_ahead some_ (omega arith),
    le→ltb (length pg.bytes) (off + length bs) fits,
  )

  pub copy_into-overrun :
      0 < length bs
      → off < length pg.bytes
      → length pg.bytes < off + length bs
      → copy_into pg off bs ≡ err overrun
  unfolding copy_into
  copy_into-overrun some_ in_ long =
      rw
        (
          le→ltb (length pg.bytes) off (omega arith),
          nonempty_ahead some_ in_,
          lt→ltb (length pg.bytes) (off + length bs) long,
        )
        refl

  pub copy_into-panic : length pg.bytes < off → copy_into pg off bs ≡ err panic
  unfolding copy_into
  copy_into-panic behind = rw (lt→ltb (length pg.bytes) off behind) refl

  at_end : off ≡ length pg.bytes → (length bs == 0 || off == length pg.bytes) ≡ true
  at_end e = ground (arith, e)

  pub copy_into-end : off ≡ length pg.bytes → copy_into pg off bs ≡ ok pg
  unfolding copy_into
  copy_into-end e = rw (le→ltb (length pg.bytes) off (omega (arith, e)), at_end e) refl
