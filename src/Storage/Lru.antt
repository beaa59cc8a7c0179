-- ===== src/Storage/Lru.antt =====
-- internal/storage/pager.go: `lruCache`. `order` is the linked list, most recently used first; the
-- map `items` from ids to its elements is the search through it.
pub mod Entries
pub mod Eviction
use sqlgo.Base.{
  ℕ, zero, suc, ◌+◌, ◌^◌, ◌&&◌, Bool, Option, some, none, List, length, [], ◌∷◌, ltb, leb, ◌==◌,
  if◌then◌else◌,
}
use sqlgo.Storage.Page.{Page}

-- A map with numbers for keys: the value at the first entry with the key.
module _ {ℓ} {A : Type ℓ} where
  unfoldable pub find : ℕ → List (ℕ × A) → Option A
  find id [] = none
  find id ((key, entry) ∷ behind) = if key == id then some entry else find id behind

  unfoldable pub without : ℕ → List (ℕ × A) → List (ℕ × A)
  without id [] = []
  without id ((key, entry) ∷ behind) =
      let others = without id behind in if key == id then behind else (key, entry) ∷ others

  -- `order.Back()`: the last element, behind those in front of it.
  unfoldable pub split_back : List A → Option (List A × A)
  split_back [] = none
  split_back (x ∷ l) = elim (split_back l) [
    | none ↦ some ([], x)
    | some (front, back) ↦ some (x ∷ front, back)
  ]

pub record Lru : Type 0 where
  pub cap : ℕ
  pub order : List (ℕ × Page)
  pub hits : ℕ
  pub misses : ℕ

unfoldable pub new_lru_cache : ℕ → Lru
new_lru_cache cap = record { cap = cap; order = []; hits = 0; misses = 0 }

-- `pins > 0`, as a signed comparison.
unfoldable pub pinned : Page → Bool
pinned pg = ltb 0 pg.pins && ltb pg.pins (2 ^ 31)

unfoldable pub get : Lru → ℕ → Lru × Option Page
get c id = elim (find id c.order) [
  | some pg ↦ (record c { order = (id, pg) ∷ without id c.order; hits = c.hits + 1 }, some pg)
  | none ↦ (record c { misses = c.misses + 1 }, none)
]

-- The loop of `put`, which goes round at most once: what stays, and what was evicted. A pinned
-- last element is moved to the front instead, and nothing is evicted.
unfoldable pub make_room : Lru → List (ℕ × Page) × Option Page
make_room c = if ltb (length c.order) c.cap then (c.order, none) else elim (split_back c.order) [
  | none ↦ (c.order, none)
  | some (front, (id, pg)) ↦ if pinned pg then ((id, pg) ∷ front, none) else (front, some pg)
]

unfoldable pub put : Lru → ℕ → Page → Lru × Option Page
put c id pg = elim (find id c.order) [
  | some _ ↦ (record c { order = (id, pg) ∷ without id c.order }, none)
  | none ↦ let (rest, evicted) = make_room c in (record c { order = (id, pg) ∷ rest }, evicted)
]

unfoldable pub remove : Lru → ℕ → Lru
remove c id = record c { order = without id c.order }
