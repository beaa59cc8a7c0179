-- ===== src/Engine/Glob/Matching.antt =====
-- `globMatchRunes` against a description of the strings that a pattern stands for.
use sqlgo.Base.{
  ℕ, zero, suc, ◌≤◌, ◌≡◌, ◌↔◌, ◌⊎◌, refl, sym, arith, Bool, true, false, List, [], ◌∷◌, length,
  ◌==◌, leb, ◌&&◌, if◌then◌else◌, Bool-cases, inl, inr,
}
use mathlib.Core.List.{append-nil}
use sqlgo.Engine.Pattern.{
  Item, exactly, one, many, one_of, InRanges, Accepts, Matches, IsFor, is_empty, is_empty-IsFor,
  literal-IsFor, any_one-IsFor, some_suffix, some_suffix-IsFor,
}
use sqlgo.Engine.Glob.{
  star, question, bracket, close_bracket, dash, or_test, scan_class, class_start, same, match_class,
  glob_match_runes, glob_match,
}

-- The ranges of a class, `x-z` or a single rune, and the pattern behind it.
unfoldable pub parse_class : List ℕ → List (ℕ × ℕ) × List ℕ
parse_class [] = ([], [])
parse_class (x ∷ []) = if x == close_bracket then ([], []) else ((x, x) ∷ [], [])
parse_class (x ∷ y ∷ []) =
    let (ranges, behind) = parse_class (y ∷ []) in
    if x == close_bracket then ([], y ∷ []) else ((x, x) ∷ ranges, behind)
parse_class (x ∷ y ∷ z ∷ p) =
    let (ranges, behind) = parse_class p in
    let (ranges', behind') = parse_class (y ∷ z ∷ p) in
    if x == close_bracket
    then ([], y ∷ z ∷ p)
    else if y == dash
    then ((x, z) ∷ ranges, behind)
    else ((x, x) ∷ ranges', behind')

-- What a pattern consists of; its length is fuel enough.
unfoldable pub glob_items : ℕ → List ℕ → List Item
glob_items fuel [] = []
glob_items zero (c ∷ p) = []
glob_items (suc fuel) (c ∷ p) =
    let (negate, body) = class_start p in
    let (ranges, behind) = parse_class body in
    if c == star
    then many ∷ glob_items fuel p
    else if c == question
    then one ∷ glob_items fuel p
    else if c == bracket
    then one_of negate ranges ∷ glob_items fuel behind
    else exactly c ∷ glob_items fuel p

-- The scan of a class and its ranges agree.
record Scans (c : ℕ) (m : Bool) (r : Bool × List ℕ) (q : List (ℕ × ℕ) × List ℕ) : Type 0 where
  behind : r.1 ≡ q.1
  matched : r.0 ≡ true ↔ ((m ≡ true) ⊎ InRanges q.0 c)

stop-Scans : (c : ℕ) (m : Bool) (p : List ℕ) → Scans c m (m, p) ([], p)
stop-Scans c m p = record {
  behind = refl;
  matched = (λ h. inl h, λ o. elim o [ inl h ↦ h | inr none_ ↦ absurd none_ ]);
}

or_test_iff : (t m : Bool) → or_test t m ≡ true ↔ ((t ≡ true) ⊎ (m ≡ true))
or_test_iff true m = (λ h. inl refl, λ o. refl)
or_test_iff false m = (λ h. inr h, λ o. elim o [ inl h ↦ cc | inr h ↦ h ])

more-Scans :
    (c lo hi : ℕ) (t m : Bool) (r : Bool × List ℕ) (q : List (ℕ × ℕ) × List ℕ)
    → (t ≡ true ↔ ((lo ≤ c) × (c ≤ hi)))
    → Scans c (or_test t m) r q
    → Scans c m r ((lo, hi) ∷ q.0, q.1)
more-Scans c lo hi t m r q is sc = record {
  behind = sc.behind;
  matched = (
    λ h. elim (sc.matched.0 h) [
      | inr later ↦ inr (inr later)
      | inl now ↦ elim ((or_test_iff t m).0 now) [
        | inl here ↦ inr (inl (is.0 here))
        | inr before ↦ inl before
      ]
    ],
    λ o. elim o [
      | inl before ↦ sc.matched.1 (inl ((or_test_iff t m).1 (inr before)))
      | inr (inl here) ↦ sc.matched.1 (inl ((or_test_iff t m).1 (inl (is.1 here))))
      | inr (inr later) ↦ sc.matched.1 (inr later)
    ],
  );
}

is_single : (c x : ℕ) → (c == x) ≡ true ↔ ((x ≤ c) × (c ≤ x))
is_single c x = (λ h. ground (arith, h), λ h. ground (arith, h))

is_range : (c x z : ℕ) → (leb x c && leb c z) ≡ true ↔ ((x ≤ c) × (c ≤ z))
is_range c x z = (λ h. ground (arith, h), λ h. ground (arith, h))

scan_class-Scans : (c : ℕ) (m : Bool) (p : List ℕ) → Scans c m (scan_class c m p) (parse_class p)
unfolding scan_class parse_class
scan_class-Scans c m [] = stop-Scans c m []
scan_class-Scans c m (x ∷ []) = elim (Bool-cases (x == close_bracket)) [
  | inl closed ↦ rw closed (stop-Scans c m [])
  | inr open_ ↦
      rw open_ (more-Scans c x x (c == x) m _ ([], []) (is_single c x) (stop-Scans c _ []))
]
scan_class-Scans c m (x ∷ y ∷ []) =
    let rest = scan_class-Scans c (or_test (c == x) m) (y ∷ []) in
    elim (Bool-cases (x == close_bracket)) [
      | inl closed ↦ rw closed (stop-Scans c m (y ∷ []))
      | inr open_ ↦
          rw open_ (more-Scans c x x (c == x) m _ (parse_class (y ∷ [])) (is_single c x) rest)
    ]
scan_class-Scans c m (x ∷ y ∷ z ∷ p) =
    let in_range = scan_class-Scans c (or_test (leb x c && leb c z) m) p in
    let single = scan_class-Scans c (or_test (c == x) m) (y ∷ z ∷ p) in
    elim (Bool-cases (x == close_bracket)) [
      | inl closed ↦ rw closed (stop-Scans c m (y ∷ z ∷ p))
      | inr open_ ↦ elim (Bool-cases (y == dash)) [
        | inl range ↦
            rw (open_, range)
              (more-Scans c x z (leb x c && leb c z) m _ (parse_class p) (is_range c x z) in_range)
        | inr plain ↦
            rw (open_, plain)
              (more-Scans c x x (c == x) m _ (parse_class (y ∷ z ∷ p)) (is_single c x) single)
      ]
    ]

length-parse_class : (p : List ℕ) → length (parse_class p).1 ≤ length p
unfolding parse_class
length-parse_class [] = omega arith
length-parse_class (x ∷ []) = ground arith
length-parse_class (x ∷ y ∷ []) = ground (arith, length-parse_class (y ∷ []))
length-parse_class (x ∷ y ∷ z ∷ p) =
    ground (arith, length-parse_class p, length-parse_class (y ∷ z ∷ p))

length-class_start : (p : List ℕ) → length (class_start p).1 ≤ length p
unfolding class_start
length-class_start [] = omega arith
length-class_start (x ∷ p) = ground arith

not_false-InRanges :
    (c : ℕ) (ranges : List (ℕ × ℕ)) → (false ≡ true) ⊎ InRanges ranges c → InRanges ranges c
not_false-InRanges c ranges (inl e) = cc
not_false-InRanges c ranges (inr i) = i

-- What the class decides.
same-Accepts :
    (c : ℕ) (negate m : Bool) (ranges : List (ℕ × ℕ))
    → (m ≡ true ↔ ((false ≡ true) ⊎ InRanges ranges c))
    → same m negate ≡ false ↔ Accepts negate ranges c
same-Accepts c true true ranges is =
    (λ h. cc, λ no. absurd (no (not_false-InRanges c ranges (is.0 refl))))
same-Accepts c true false ranges is = (λ h i. let e = is.1 (inr i) in cc, λ no. refl)
same-Accepts c false true ranges is = (λ h. not_false-InRanges c ranges (is.0 refl), λ i. refl)
same-Accepts c false false ranges is = (λ h. cc, λ i. let e = is.1 (inr i) in cc)

head_eq : {c c' : ℕ} {s s' : List ℕ} → c ∷ s ≡ c' ∷ s' → c ≡ c'
head_eq e = cc

tail_eq : {c c' : ℕ} {s s' : List ℕ} → c ∷ s ≡ c' ∷ s' → s ≡ s'
tail_eq e = cc

match_class-IsFor :
    (its : List Item) (k : List ℕ → List ℕ → Bool) (p : List ℕ)
    → IsFor its (k (parse_class (class_start p).1).1)
    → IsFor (one_of (class_start p).0 (parse_class (class_start p).1).0 ∷ its) (match_class k p)
unfolding match_class
match_class-IsFor its k p is [] = (λ h. cc, λ (c, rest, e, ok_, m). cc)
match_class-IsFor its k p is (c ∷ s) =
    let negate = (class_start p).0 in
    let body = (class_start p).1 in
    let ranges = (parse_class body).0 in
    let sc = scan_class-Scans c false body in
    let acc = same-Accepts c negate (scan_class c false body).0 ranges sc.matched in
    elim (Bool-cases (same (scan_class c false body).0 negate)) [
      | inl refused ↦ (
        λ h. absurd (cc (rw refused at h)),
        λ (c', rest, e, ok_, m).
            let ok' : Accepts negate ranges c = rw (head_eq e) ok_ in
            absurd (cc (refused, acc.1 ok')),
      )
      | inr accepted ↦ (
        λ h. (c, s, refl, acc.0 accepted, (is s).0 (rw (accepted, sc.behind) at h)),
        λ (c', rest, e, ok_, m). rw (accepted, sc.behind) (rw (tail_eq e) ((is rest).1 m)),
      )
    ]

-- At the end of the pattern `*` is not tried on each suffix.
star_step :
    (n : ℕ) (p s : List ℕ)
    → (if is_empty p then true else some_suffix (glob_match_runes n p) s)
      ≡ some_suffix (glob_match_runes n p) s
unfolding is_empty glob_match_runes
star_step n [] s = sym (
    (some_suffix-IsFor [] (glob_match_runes n []) (λ t. is_empty-IsFor t) s).1
      (s, [], sym (append-nil s), refl))
star_step n (x ∷ p) s = refl

glob_match_runes-IsFor :
    (n : ℕ) (p : List ℕ) → length p ≤ n → IsFor (glob_items n p) (glob_match_runes n p)
unfolding glob_items glob_match_runes
glob_match_runes-IsFor n [] le s = is_empty-IsFor s
glob_match_runes-IsFor zero (c ∷ p) le s = absurd (omega arith)
glob_match_runes-IsFor (suc n) (c ∷ p) le s =
    let ih = glob_match_runes-IsFor n p (omega arith) in
    let body = (class_start p).1 in
    let behind = (parse_class body).1 in
    let ih' =
      glob_match_runes-IsFor n behind
        (omega (arith, length-parse_class body, length-class_start p)) in
    elim (Bool-cases (c == star)) [
      | inl is_star ↦
          rw is_star
            (rw (star_step n p s) (some_suffix-IsFor (glob_items n p) (glob_match_runes n p) ih s))
      | inr no_star ↦ elim (Bool-cases (c == question)) [
        | inl is_question ↦
            rw (no_star, is_question) (any_one-IsFor (glob_items n p) (glob_match_runes n p) ih s)
        | inr no_question ↦ elim (Bool-cases (c == bracket)) [
          | inl is_bracket ↦
              rw (no_star, no_question, is_bracket)
                (match_class-IsFor (glob_items n behind) (glob_match_runes n) p ih' s)
          | inr plain ↦
              rw (no_star, no_question, plain)
                (literal-IsFor (glob_items n p) (glob_match_runes n p) ih c s)
        ]
      ]
    ]

-- `globMatchRunes` accepts exactly the strings that the pattern stands for: `?` for one rune, `*` for
-- any number of them, a class for one rune that is in one of its ranges, or in none of them if it
-- starts with `^`, and any other rune for itself. The length of the pattern is fuel enough.
pub glob_match-Matches :
    (pattern s : List ℕ)
    → glob_match s pattern ≡ true ↔ Matches (glob_items (length pattern) pattern) s
unfolding glob_match
glob_match-Matches pattern s = glob_match_runes-IsFor (length pattern) pattern (omega arith) s
