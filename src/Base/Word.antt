-- ===== src/Base/Word.antt =====
-- Big-endian integers: encoding/binary's PutUint16/32/64 and Uint16/32/64, and the C routines of
-- internal/storage/ops.c. A byte is a number below 256. The disjoint `|` of shifted bytes is `+`.
use sqlgo.Base.Lists.{Bytes}
use Prim.Native.Nat.{ℕ, ◌+◌, ◌*◌, ◌/◌, ◌%◌, ◌^◌, ◌<◌}
use mathlib.Core.Path.{◌≡◌}
use mathlib.Core.List.{[], ◌∷◌}
use native.Mathlib.Omega.{arith}

abbrev pub IsByte : ℕ → Type 0
IsByte b = b < 256

unfoldable pub put_uint16 : ℕ → Bytes
put_uint16 v = (v / 256 % 256) ∷ (v % 256) ∷ []

unfoldable pub uint16 : ℕ → ℕ → ℕ
uint16 a b = a * 256 + b

unfoldable pub put_uint32 : ℕ → Bytes
put_uint32 v = (v / 2 ^ 24 % 256) ∷ (v / 2 ^ 16 % 256) ∷ (v / 2 ^ 8 % 256) ∷ (v % 256) ∷ []

unfoldable pub uint32 : ℕ → ℕ → ℕ → ℕ → ℕ
uint32 a b c d = a * 2 ^ 24 + b * 2 ^ 16 + c * 2 ^ 8 + d

pub uint16-put : (v : ℕ) → v < 2 ^ 16 → uint16 (v / 256 % 256) (v % 256) ≡ v
unfolding uint16
uint16-put v h = omega arith

pub uint32-put :
    (v : ℕ)
    → v < 2 ^ 32
    → uint32 (v / 2 ^ 24 % 256) (v / 2 ^ 16 % 256) (v / 2 ^ 8 % 256) (v % 256) ≡ v
unfolding uint32
uint32-put v h = omega arith

unfoldable pub encode_uint64_be : ℕ → Bytes
encode_uint64_be v =
    (v / 2 ^ 56 % 256)
    ∷ (v / 2 ^ 48 % 256)
    ∷ (v / 2 ^ 40 % 256)
    ∷ (v / 2 ^ 32 % 256)
    ∷ (v / 2 ^ 24 % 256)
    ∷ (v / 2 ^ 16 % 256)
    ∷ (v / 2 ^ 8 % 256)
    ∷ (v % 256)
    ∷ []

-- The callers check that eight bytes are there; the number for a shorter buffer is never used.
unfoldable pub decode_uint64_be : Bytes → ℕ
decode_uint64_be (a ∷ b ∷ c ∷ d ∷ e ∷ f ∷ g ∷ h ∷ _) =
    a * 2 ^ 56 + b * 2 ^ 48 + c * 2 ^ 40 + d * 2 ^ 32 + e * 2 ^ 24 + f * 2 ^ 16 + g * 2 ^ 8 + h
decode_uint64_be _ = 0

pub decode-encode_uint64_be : (v : ℕ) → v < 2 ^ 64 → decode_uint64_be (encode_uint64_be v) ≡ v
unfolding decode_uint64_be encode_uint64_be
decode-encode_uint64_be v h = omega arith
