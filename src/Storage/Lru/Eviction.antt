-- ===== src/Storage/Lru/Eviction.antt =====
-- What `put` and `get` do to the entries, and how many there can be.
use sqlgo.Base.{
  ℕ, ◌+◌, ◌≤◌, ◌<◌, ◌≡◌, ◌⊎◌, refl, sym, ap, ◌∙◌, arith, false, true, Option, some, none, List,
  length, length-append, [], ◌∷◌, ◌++◌, ltb, ◌==◌, if◌then◌else◌, Bool-cases, Option-cases, inl,
  inr,
}
use sqlgo.Storage.Page.{Page}
use sqlgo.Storage.Lru.{Lru, find, without, split_back, pinned, get, put, make_room}
use sqlgo.Storage.Lru.Entries.{
  Distinct, find-without, Distinct-without, length-without, split_back-eq-none, split_back_inv,
  find-front, find-snoc_self, Distinct-front,
}

-- What `make_room` leaves of the entries.
abbrev Room : List (ℕ × Page) → List (ℕ × Page) × Option Page → Type 0
Room order (rest, none) =
    ((k : ℕ) → find k rest ≡ find k order) × Distinct rest × (length rest ≡ length order)
Room order (rest, some q) =
    (victim : ℕ) × (find victim order ≡ some q)
    × ((k : ℕ) → find k rest ≡ (if victim == k then none else find k order))
    × Distinct rest
    × (pinned q ≡ false)
    × (length rest + 1 ≡ length order)

-- The last entry comes to the front.
find-rotated :
    (front : List (ℕ × Page)) (j : ℕ) (v : Page) (k : ℕ)
    → Distinct (front ++ (j, v) ∷ [])
    → find k ((j, v) ∷ front) ≡ find k (front ++ (j, v) ∷ [])
unfolding find
find-rotated front j v k d = ground (arith, find-front front j v k d, find-snoc_self front j v d)

rotated-Room :
    (c : Lru) (front : List (ℕ × Page)) (j : ℕ) (v : Page)
    → c.order ≡ front ++ (j, v) ∷ []
    → Distinct (front ++ (j, v) ∷ [])
    → Room c.order (if pinned v then ((j, v) ∷ front, none) else (front, some v))
rotated-Room c front j v e d = elim (Bool-cases (pinned v)) [
  | inl held ↦
      rw (held, e)
        (
          λ k. find-rotated front j v k d,
          (find-front front j v j d ∙ ground arith, Distinct-front front j v d),
          omega (arith, length-append front ((j, v) ∷ [])),
        )
  | inr free ↦
      rw (free, e)
        (
          j,
          find-snoc_self front j v d,
          λ k. find-front front j v k d,
          Distinct-front front j v d,
          free,
          omega (arith, length-append front ((j, v) ∷ [])),
        )
]

make_room-Room : (c : Lru) → Distinct c.order → Room c.order (make_room c)
unfolding make_room
make_room-Room c d = elim (Bool-cases (ltb (length c.order) c.cap)) [
  | inl free ↦ rw free (λ k. refl, d, refl)
  | inr full ↦ elim (Option-cases (split_back c.order)) [
    | inl empty ↦ rw (full, empty) (λ k. refl, d, refl)
    | inr ((front, (j, v)), back) ↦
        let e = split_back_inv c.order front (j, v) back in
        rw (full, back) (rotated-Room c front j v e (rw e at d))
  ]
]

-- What `put` makes of the cache: the new page under its id, and all others as they were, but for
-- the one that is handed back.
abbrev pub Put : Lru → ℕ → Page → Lru × Option Page → Type 0
Put c id pg (c', none) =
    ((k : ℕ) → find k c'.order ≡ (if id == k then some pg else find k c.order)) × Distinct c'.order
Put c id pg (c', some q) =
    (find id c.order ≡ none)
    × ((victim : ℕ) × (find victim c.order ≡ some q)
        × ((k : ℕ)
            → find k c'.order
              ≡ (if id == k then some pg else if victim == k then none else find k c.order)))
    × Distinct c'.order
    × (pinned q ≡ false)

absent-Put :
    (c : Lru) (id : ℕ) (pg : Page) (r : List (ℕ × Page) × Option Page)
    → find id c.order ≡ none
    → Room c.order r
    → Put c id pg (record c { order = (id, pg) ∷ r.0 }, r.1)
absent-Put c id pg (rest, none) absent (same, d, _) =
    unfold find in (λ k. ground (arith, same k), (same id ∙ absent, d))
absent-Put c id pg (rest, some q) absent (victim, there, gone, d, free, _) =
    unfold find in
    (
      absent,
      (victim, there, λ k. ground (arith, gone k)),
      (ground (arith, gone id, absent), d),
      free,
    )

put_present :
    (c : Lru) (id : ℕ) (pg old : Page)
    → find id c.order ≡ some old
    → put c id pg ≡ (record c { order = (id, pg) ∷ without id c.order }, none)
unfolding put
put_present c id pg old present = rw (present, put)

put_absent :
    (c : Lru) (id : ℕ) (pg : Page)
    → find id c.order ≡ none
    → put c id pg ≡ (record c { order = (id, pg) ∷ (make_room c).0 }, (make_room c).1)
unfolding put
put_absent c id pg absent = rw (absent, put)

-- A page that is put under an id is found there, and every other entry as before, except one that
-- is evicted: `put` returns it, it was cached, is not pinned, and makes room for a new id. No id
-- is twice in the cache.
pub put-Put : (c : Lru) (id : ℕ) (pg : Page) → Distinct c.order → Put c id pg (put c id pg)
put-Put c id pg d = elim (Option-cases (find id c.order)) [
  | inl absent ↦
      rw (put_absent c id pg absent) (absent-Put c id pg (make_room c) absent (make_room-Room c d))
  | inr (old, present) ↦ rw (put_present c id pg old present) (
      unfold find in
      (
        λ k. ground (arith, find-without id k c.order d),
        (ground (arith, find-without id id c.order d), Distinct-without id c.order d),
      ))
]

get_present :
    (c : Lru) (id : ℕ) (pg : Page)
    → find id c.order ≡ some pg
    → get c id ≡ (record c { order = (id, pg) ∷ without id c.order; hits = c.hits + 1 }, some pg)
unfolding get
get_present c id pg present = rw (present, get)

get_absent :
    (c : Lru) (id : ℕ)
    → find id c.order ≡ none
    → get c id ≡ (record c { misses = c.misses + 1 }, none)
unfolding get
get_absent c id absent = rw (absent, get)

-- `get` returns what is cached under the id, and changes nothing that can be looked up.
pub get-find :
    (c : Lru) (id : ℕ)
    → Distinct c.order
    → ((get c id).1 ≡ find id c.order)
      × ((k : ℕ) → find k (get c id).0.order ≡ find k c.order)
      × Distinct (get c id).0.order
get-find c id d = elim (Option-cases (find id c.order)) [
  | inl absent ↦ rw (get_absent c id absent) (sym absent, λ k. refl, d)
  | inr (pg, present) ↦ rw (get_present c id pg present) (
      unfold find in
      (
        sym present,
        λ k. ground (arith, find-without id k c.order d),
        (ground (arith, find-without id id c.order d), Distinct-without id c.order d),
      ))
]

ge_of_ltb : (m n : ℕ) → ltb m n ≡ false → n ≤ m
ge_of_ltb m n h = ground arith

length-make_room :
    (c : Lru)
    → 0 < c.cap
    → length c.order ≤ c.cap
    → (length (make_room c).0 < c.cap)
      ⊎ ((front : List (ℕ × Page)) × (j : ℕ) × (v : Page) × (split_back c.order
            ≡ some (front, (j, v)))
          × (pinned v ≡ true)
          × (length (make_room c).0 ≡ c.cap))
unfolding make_room
length-make_room c pos bound = elim (Bool-cases (ltb (length c.order) c.cap)) [
  | inl free ↦ rw free (inl (ground arith))
  | inr full ↦ elim (Option-cases (split_back c.order)) [
    | inl empty ↦
        absurd (omega (arith, ap length (split_back-eq-none c.order empty), ge_of_ltb _ _ full))
    | inr ((front, (j, v)), back) ↦
        let e = ap length (split_back_inv c.order front (j, v) back) in
        let size = length-append front ((j, v) ∷ []) in
        elim (Bool-cases (pinned v)) [
          | inl held ↦
              rw (full, back, held) (inr (front, j, v, refl, held, ground (arith, e, size, full)))
          | inr unheld ↦ rw (full, back, unheld) (inl (omega (arith, e, size)))
        ]
  ]
]

-- A cache within its capacity, which is not 0, stays within it under `put`, unless the last page is pinned when the
-- cache is full: then it is kept, and the cache holds one page more than its capacity.
pub put_bound :
    (c : Lru) (id : ℕ) (pg : Page)
    → 0 < c.cap
    → length c.order ≤ c.cap
    → (length (put c id pg).0.order ≤ c.cap)
      ⊎ ((front : List (ℕ × Page)) × (j : ℕ) × (v : Page) × (split_back c.order
            ≡ some (front, (j, v)))
          × (pinned v ≡ true)
          × (length (put c id pg).0.order ≡ c.cap + 1))
put_bound c id pg pos bound = elim (Option-cases (find id c.order)) [
  | inl absent ↦ rw (put_absent c id pg absent) (elim (length-make_room c pos bound) [
    | inl room ↦ inl (omega arith)
    | inr (front, j, v, back, held, size) ↦ inr (front, j, v, back, held, omega arith)
  ])
  | inr (old, present) ↦
      rw (put_present c id pg old present)
        (inl (omega (arith, length-without id c.order old present)))
]
