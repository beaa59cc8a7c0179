-- ===== src/Base/Lists.antt =====
-- Lists measured and indexed by native numbers, under the library's names.
use Prim.Native.Nat.{ℕ, zero, suc, ◌+◌, ◌≤◌, ◌<◌}
use mathlib.Core.Path.{◌≡◌, refl, ap}
use mathlib.Core.Bool.{Bool, true, false, ◌&&◌}
use mathlib.Core.Logic.{◌↔◌, ◌≢◌}
use mathlib.Core.List.{List, [], ◌∷◌, ◌++◌}
use mathlib.Core.Option.{Option, none, some}
use native.Mathlib.Omega.{arith}
use sqlgo.Base.Tests.{◌==◌}

module _ {ℓ} {A : Type ℓ} where
  abbrev pub length : List A → ℕ
  length [] = 0
  length (x ∷ xs) = suc (length xs)

  abbrev pub get_elem? : List A → ℕ → Option A
  get_elem? [] i = none
  get_elem? (x ∷ xs) zero = some x
  get_elem? (x ∷ xs) (suc i) = get_elem? xs i

  abbrev pub take : ℕ → List A → List A
  take zero xs = []
  take (suc n) [] = []
  take (suc n) (x ∷ xs) = x ∷ take n xs

  abbrev pub drop : ℕ → List A → List A
  drop zero xs = xs
  drop (suc n) [] = []
  drop (suc n) (x ∷ xs) = drop n xs

  -- A write out of bounds changes nothing.
  abbrev pub set : List A → ℕ → A → List A
  set [] i v = []
  set (x ∷ xs) zero v = v ∷ xs
  set (x ∷ xs) (suc i) v = x ∷ set xs i v

  abbrev pub All {κ} : (A → Type κ) → List A → Type κ
  All P [] = Unit {κ}
  All P (x ∷ xs) = P x × All P xs

  pub length-append : (xs ys : List A) → length (xs ++ ys) ≡ length xs + length ys
  length-append [] ys = omega arith
  length-append (x ∷ xs) ys = omega (arith, length-append xs ys)

  pub take-length-append : (xs ys : List A) → take (length xs) (xs ++ ys) ≡ xs
  take-length-append [] ys = refl
  take-length-append (x ∷ xs) ys = ap (◌∷◌ x) (take-length-append xs ys)

  pub drop-length-append : (xs ys : List A) → drop (length xs) (xs ++ ys) ≡ ys
  drop-length-append [] ys = refl
  drop-length-append (x ∷ xs) ys = drop-length-append xs ys

  pub take-append_of_le : (n : ℕ) (xs ys : List A) → n ≤ length xs → take n (xs ++ ys) ≡ take n xs
  take-append_of_le zero xs ys h = refl
  take-append_of_le (suc n) [] ys h = absurd (omega arith)
  take-append_of_le (suc n) (x ∷ xs) ys h = ap (◌∷◌ x) (take-append_of_le n xs ys (omega arith))

  pub drop-append_of_le :
      (n : ℕ) (xs ys : List A) → n ≤ length xs → drop n (xs ++ ys) ≡ drop n xs ++ ys
  drop-append_of_le zero xs ys h = refl
  drop-append_of_le (suc n) [] ys h = absurd (omega arith)
  drop-append_of_le (suc n) (x ∷ xs) ys h = drop-append_of_le n xs ys (omega arith)

  pub length-take-drop : (n : ℕ) (xs : List A) → length (take n xs) + length (drop n xs) ≡ length xs
  length-take-drop zero xs = omega arith
  length-take-drop (suc n) [] = refl
  length-take-drop (suc n) (x ∷ xs) = omega (arith, length-take-drop n xs)

  pub take-append-drop : (n : ℕ) (xs : List A) → take n xs ++ drop n xs ≡ xs
  take-append-drop zero xs = refl
  take-append-drop (suc n) [] = refl
  take-append-drop (suc n) (x ∷ xs) = ap (◌∷◌ x) (take-append-drop n xs)

  pub lt_of_get_elem? : (xs : List A) (i : ℕ) {x : A} → get_elem? xs i ≡ some x → i < length xs
  lt_of_get_elem? [] i h = cc
  lt_of_get_elem? (x ∷ xs) zero h = omega arith
  lt_of_get_elem? (x ∷ xs) (suc i) h = omega (arith, lt_of_get_elem? xs i h)

  pub get_elem?_of_lt : (xs : List A) (i : ℕ) → i < length xs → (x : A) × (get_elem? xs i ≡ some x)
  get_elem?_of_lt [] i h = absurd (omega arith)
  get_elem?_of_lt (x ∷ xs) zero h = (x, refl)
  get_elem?_of_lt (x ∷ xs) (suc i) h = get_elem?_of_lt xs i (omega arith)

  -- `x` comes to stand at place `i`, and what stood from there on moves up.
  abbrev pub insert_nth : ℕ → A → List A → List A
  insert_nth zero x xs = x ∷ xs
  insert_nth (suc i) x [] = x ∷ []
  insert_nth (suc i) x (y ∷ ys) = y ∷ insert_nth i x ys

  pub length-insert_nth :
      (i : ℕ) (x : A) (xs : List A) → length (insert_nth i x xs) ≡ suc (length xs)
  length-insert_nth zero x xs = refl
  length-insert_nth (suc i) x [] = refl
  length-insert_nth (suc i) x (y ∷ ys) = ap suc (length-insert_nth i x ys)

  pub get_elem?-insert_nth_lt :
      (i j : ℕ) (x : A) (xs : List A)
      → j < i
      → i ≤ length xs
      → get_elem? (insert_nth i x xs) j ≡ get_elem? xs j
  get_elem?-insert_nth_lt zero j x xs h k = absurd (omega arith)
  get_elem?-insert_nth_lt (suc i) j x [] h k = absurd (omega arith)
  get_elem?-insert_nth_lt (suc i) zero x (y ∷ ys) h k = refl
  get_elem?-insert_nth_lt (suc i) (suc j) x (y ∷ ys) h k =
      get_elem?-insert_nth_lt i j x ys (omega arith) (omega arith)

  pub get_elem?-insert_nth_self :
      (i : ℕ) (x : A) (xs : List A) → i ≤ length xs → get_elem? (insert_nth i x xs) i ≡ some x
  get_elem?-insert_nth_self zero x xs k = refl
  get_elem?-insert_nth_self (suc i) x [] k = absurd (omega arith)
  get_elem?-insert_nth_self (suc i) x (y ∷ ys) k = get_elem?-insert_nth_self i x ys (omega arith)

  pub get_elem?-insert_nth_gt :
      (i j : ℕ) (x : A) (xs : List A)
      → i ≤ j
      → get_elem? (insert_nth i x xs) (suc j) ≡ get_elem? xs j
  get_elem?-insert_nth_gt zero j x xs h = refl
  get_elem?-insert_nth_gt (suc i) j x [] h = refl
  get_elem?-insert_nth_gt (suc i) zero x (y ∷ ys) h = absurd (omega arith)
  get_elem?-insert_nth_gt (suc i) (suc j) x (y ∷ ys) h =
      get_elem?-insert_nth_gt i j x ys (omega arith)

  -- What stood behind place `i` moves down.
  abbrev pub remove_nth : ℕ → List A → List A
  remove_nth i [] = []
  remove_nth zero (x ∷ xs) = xs
  remove_nth (suc i) (x ∷ xs) = x ∷ remove_nth i xs

  pub length-remove_nth :
      (i : ℕ) (xs : List A) → i < length xs → length (remove_nth i xs) + 1 ≡ length xs
  length-remove_nth i [] h = absurd (omega arith)
  length-remove_nth zero (x ∷ xs) h = omega arith
  length-remove_nth (suc i) (x ∷ xs) h = omega (arith, length-remove_nth i xs)

  pub get_elem?-remove_nth_lt :
      (i j : ℕ) (xs : List A) → j < i → get_elem? (remove_nth i xs) j ≡ get_elem? xs j
  get_elem?-remove_nth_lt i j [] h = refl
  get_elem?-remove_nth_lt zero j (x ∷ xs) h = absurd (omega arith)
  get_elem?-remove_nth_lt (suc i) zero (x ∷ xs) h = refl
  get_elem?-remove_nth_lt (suc i) (suc j) (x ∷ xs) h = get_elem?-remove_nth_lt i j xs (omega arith)

  pub get_elem?-remove_nth_ge :
      (i j : ℕ) (xs : List A) → i ≤ j → get_elem? (remove_nth i xs) j ≡ get_elem? xs (suc j)
  get_elem?-remove_nth_ge i j [] h = refl
  get_elem?-remove_nth_ge zero j (x ∷ xs) h = refl
  get_elem?-remove_nth_ge (suc i) zero (x ∷ xs) h = absurd (omega arith)
  get_elem?-remove_nth_ge (suc i) (suc j) (x ∷ xs) h = get_elem?-remove_nth_ge i j xs (omega arith)

  pub length-set : (xs : List A) (i : ℕ) (v : A) → length (set xs i v) ≡ length xs
  length-set [] i v = refl
  length-set (x ∷ xs) zero v = refl
  length-set (x ∷ xs) (suc i) v = ap suc (length-set xs i v)

  pub get_elem?-set_self :
      (xs : List A) (i : ℕ) (v : A) → i < length xs → get_elem? (set xs i v) i ≡ some v
  get_elem?-set_self [] i v h = absurd (omega arith)
  get_elem?-set_self (x ∷ xs) zero v h = refl
  get_elem?-set_self (x ∷ xs) (suc i) v h = get_elem?-set_self xs i v (omega arith)

  pub get_elem?-set_ne :
      (xs : List A) (i j : ℕ) (v : A) → i ≢ j → get_elem? (set xs i v) j ≡ get_elem? xs j
  get_elem?-set_ne [] i j v h = refl
  get_elem?-set_ne (x ∷ xs) zero zero v h = absurd (omega arith)
  get_elem?-set_ne (x ∷ xs) zero (suc j) v h = refl
  get_elem?-set_ne (x ∷ xs) (suc i) zero v h = refl
  get_elem?-set_ne (x ∷ xs) (suc i) (suc j) v h = get_elem?-set_ne xs i j v (omega arith)

  pub take-length : (xs : List A) → take (length xs) xs ≡ xs
  take-length [] = refl
  take-length (x ∷ xs) = ap (λ l. x ∷ l) (take-length xs)

-- A Go byte slice, and a Go string, which is a sequence of bytes too.
abbrev pub Bytes : Type 0
Bytes = List ℕ

-- `==` on strings.
abbrev pub bytes_eq : Bytes → Bytes → Bool
bytes_eq [] [] = true
bytes_eq [] (y ∷ ys) = false
bytes_eq (x ∷ xs) [] = false
bytes_eq (x ∷ xs) (y ∷ ys) = x == y && bytes_eq xs ys

eq_of_bytes_eq : (xs ys : Bytes) → bytes_eq xs ys ≡ true → xs ≡ ys
eq_of_bytes_eq [] [] h = refl
eq_of_bytes_eq [] (y ∷ ys) h = ground arith
eq_of_bytes_eq (x ∷ xs) [] h = ground arith
eq_of_bytes_eq (x ∷ xs) (y ∷ ys) h = ground (arith, eq_of_bytes_eq xs ys)

pub bytes_eq_self : (xs : Bytes) → bytes_eq xs xs ≡ true
bytes_eq_self [] = refl
bytes_eq_self (x ∷ xs) = ground (arith, bytes_eq_self xs)

pub bytes_eq_iff : (xs ys : Bytes) → (bytes_eq xs ys ≡ true) ↔ (xs ≡ ys)
bytes_eq_iff xs ys = (eq_of_bytes_eq xs ys, λ e. rw e (bytes_eq_self ys))
