-- ===== src/Bench/Percentile.antt =====
-- `percentile` and the summaries of cmd/bench/main.go and cmd/bench_restore/main.go.
use mathlib.Core.List.{
  Mem, Perm, Pairwise, mem-cons_self, mem-cons_of_mem, forall_mem-cons, not-mem-nil,
}
use mathlib.Core.List.Perm
use native.Mathlib.Bridge.{le_prop}
use native.Mathlib.Nat.{mul-le-mul_left}
use manta.Prelude.{
  ℕ, zero, suc, ◌-◌, ◌*◌, ◌/◌, ◌≤◌, ◌<◌, ◌≡◌, refl, subst, false, List, [], ◌∷◌, Option, none, some,
  arith, length, ltb, if◌then◌else◌,
}
use manta.Prelude.Sort.{IsWeakOrder, IsSorted, sort, sort-perm, length-sort, sort-IsSorted}

-- values[i]; none is the panic of an index out of range.
abbrev pub get_elem? : List ℕ → ℕ → Option ℕ
get_elem? [] i = none
get_elem? (x ∷ xs) zero = some x
get_elem? (x ∷ xs) (suc i) = get_elem? xs i

-- int(float64(len(values)-1) * p) of p = percent / 100, cut off at the last index. For the percents
-- 50, 95 and 99 of the program the product of the doubles is rounded to the integer where the exact
-- one is an integer, so that its integral part is that of the exact one.
unfoldable pub index : ℕ → ℕ → ℕ
index n percent = let i = ((n - 1) * percent) / 100 in if ltb i n then i else n - 1

unfoldable pub percentile : List ℕ → ℕ → Option ℕ
percentile [] percent = some 0
percentile (x ∷ xs) percent = get_elem? (x ∷ xs) (index (length (x ∷ xs)) percent)

pub record Summary : Type 0 where
  pub iterations_success : ℕ
  pub min : Option ℕ
  pub p50 : Option ℕ
  pub p95 : Option ℕ
  pub p99 : Option ℕ
  pub max : Option ℕ

-- What `main` reports of durations in order.
abbrev pub summary_of : List ℕ → Summary
summary_of durations = record {
  iterations_success = length durations;
  min = get_elem? durations 0;
  p50 = percentile durations 50;
  p95 = percentile durations 95;
  p99 = percentile durations 99;
  max = get_elem? durations (length durations - 1);
}

-- What it makes of the durations of the successful runs.
unfoldable pub summarize : List ℕ → Summary
summarize results = summary_of (sort ltb results)

ltb_order : IsWeakOrder ltb
ltb_order = record { asym = λ a b h. ground arith; trans = λ a b c h k. ground arith }

-- An index within the list has an entry.
get_elem?-Returns :
    (l : List ℕ) (i : ℕ) → i < length l → (x : ℕ) × (get_elem? l i ≡ some x) × Mem x l
get_elem?-Returns [] i h = absurd (omega arith)
get_elem?-Returns (x ∷ xs) zero h = (x, refl, mem-cons_self)
get_elem?-Returns (x ∷ xs) (suc i) h =
    let (y, e, m) = get_elem?-Returns xs i (omega arith) in (y, e, mem-cons_of_mem x m)

get_elem?-Mem : (l : List ℕ) (i x : ℕ) → get_elem? l i ≡ some x → Mem x l
get_elem?-Mem [] i x e = cc
get_elem?-Mem (a ∷ l) zero x e =
    let same : a ≡ x = cc in subst (λ z. Mem z (a ∷ l)) same mem-cons_self
get_elem?-Mem (a ∷ l) (suc i) x e = mem-cons_of_mem a (get_elem?-Mem l i x e)

-- In a sorted list the entries grow with the index.
get_elem?_monotone :
    (l : List ℕ) (i j x y : ℕ)
    → IsSorted ltb l
    → i ≤ j
    → get_elem? l i ≡ some x
    → get_elem? l j ≡ some y
    → x ≤ y
get_elem?_monotone [] i j x y s h e f = cc
get_elem?_monotone (a ∷ l) zero zero x y s h e f = let same : x ≡ y = cc in omega arith
get_elem?_monotone (a ∷ l) zero (suc j) x y (Pairwise.cons below s) h e f =
    let same : a ≡ x = cc in
    let below_y : ltb y a ≡ false = below y (get_elem?-Mem l j y f) in ground arith
get_elem?_monotone (a ∷ l) (suc i) zero x y s h e f = absurd (omega arith)
get_elem?_monotone (a ∷ l) (suc i) (suc j) x y (Pairwise.cons below s) h e f =
    get_elem?_monotone l i j x y s (omega arith) e f

index-lt : (n percent : ℕ) → 0 < n → index n percent < n
unfolding index
index-lt n percent h = ground arith

index_monotone : (n p q : ℕ) → p ≤ q → index n p ≤ index n q
unfolding index
index_monotone n p q h = ground (arith, mul-le-mul_left (n - 1) h)

below_cons :
    (e x : ℕ) (l : List ℕ) → x ≤ e → ((u : ℕ) → Mem u l → u ≤ e) → (y : ℕ) → Mem y (x ∷ l) → y ≤ e
below_cons e x l p h =
    let small : (u : ℕ) → IsProp (u ≤ e) = λ u. le_prop in (forall_mem-cons small).1 (p, h)

above_cons :
    (e x : ℕ) (l : List ℕ) → e ≤ x → ((u : ℕ) → Mem u l → e ≤ u) → (y : ℕ) → Mem y (x ∷ l) → e ≤ y
above_cons e x l p h =
    let large : (u : ℕ) → IsProp (e ≤ u) = λ u. le_prop in (forall_mem-cons large).1 (p, h)

-- In a sorted list the last entry is the greatest and the first the least.
last_greatest :
    (l : List ℕ) (e : ℕ)
    → IsSorted ltb l
    → get_elem? l (length l - 1) ≡ some e
    → (y : ℕ) → Mem y l
    → y ≤ e
last_greatest [] e s last = cc
last_greatest (x ∷ []) e s last =
    let same : x ≡ e = cc in below_cons e x [] (omega arith) (λ z n. absurd (not-mem-nil n))
last_greatest (x ∷ z ∷ l) e (Pairwise.cons below s) last =
    let shift : length (x ∷ z ∷ l) - 1 ≡ suc (length (z ∷ l) - 1) = omega arith in
    let last' : get_elem? (z ∷ l) (length (z ∷ l) - 1) ≡ some e =
      subst (λ i. get_elem? (x ∷ z ∷ l) i ≡ some e) shift last in
    let later = last_greatest (z ∷ l) e s last' in
    let first : z ≤ e = later z mem-cons_self in
    let below_z : ltb z x ≡ false = below z mem-cons_self in
    below_cons e x (z ∷ l) (ground arith) later

first_least :
    (l : List ℕ) (a : ℕ) → IsSorted ltb l → get_elem? l 0 ≡ some a → (y : ℕ) → Mem y l → a ≤ y
first_least [] a s first = cc
first_least (x ∷ l) a (Pairwise.cons below s) first =
    let same : x ≡ a = cc in
    above_cons a x l (omega arith) λ u n. let below_u : ltb u x ≡ false = below u n in ground arith

-- Every figure of the summary is one of the values, the percentiles lie in order between the least
-- and the greatest, and those bound all the values.
abbrev pub Describes : List ℕ → Summary → Type 0
Describes l s =
    (a b c d e : ℕ) × ((s.min ≡ some a)
      × (s.p50 ≡ some b)
      × (s.p95 ≡ some c)
      × (s.p99 ≡ some d)
      × (s.max ≡ some e))
    × ((a ≤ b) × (b ≤ c) × (c ≤ d) × (d ≤ e))
    × ((Mem a l) × (Mem b l) × (Mem c l) × (Mem d l) × (Mem e l))
    × ((y : ℕ) → Mem y l → (a ≤ y) × (y ≤ e))

summary_of-Describes : (l : List ℕ) → 0 < length l → IsSorted ltb l → Describes l (summary_of l)
unfolding percentile
summary_of-Describes [] h s = absurd (omega arith)
summary_of-Describes (x ∷ xs) h s =
    let l = x ∷ xs in
    let n = length l in
    let (b, at50, in50) = get_elem?-Returns l (index n 50) (index-lt n 50 h) in
    let (c, at95, in95) = get_elem?-Returns l (index n 95) (index-lt n 95 h) in
    let (d, at99, in99) = get_elem?-Returns l (index n 99) (index-lt n 99 h) in
    let (e, at_end, in_end) = get_elem?-Returns l (n - 1) (omega arith) in
    (
      x,
      b,
      c,
      d,
      e,
      (refl, at50, at95, at99, at_end),
      (
        first_least l x s refl b in50,
        get_elem?_monotone l (index n 50) (index n 95) b c s (index_monotone n 50 95 (omega arith))
            at50 at95,
        get_elem?_monotone l (index n 95) (index n 99) c d s (index_monotone n 95 99 (omega arith))
            at95 at99,
        last_greatest l e s at_end d in99,
      ),
      (mem-cons_self, in50, in95, in99, in_end),
      λ y m. (first_least l x s refl y m, last_greatest l e s at_end y m),
    )

Describes-Perm : (l r : List ℕ) (s : Summary) → Perm l r → Describes l s → Describes r s
Describes-Perm l r s p (a, b, c, d, e, there, order, (ma, mb, mc, md, me), bounds) =
    let to : (y : ℕ) → Mem y l → Mem y r = λ y. (Perm.mem_iff p).0 in
    (
      a,
      b,
      c,
      d,
      e,
      there,
      order,
      (to a ma, to b mb, to c mc, to d md, to e me),
      λ y m. bounds y ((Perm.mem_iff p).1 m),
    )

-- The summary of one duration at least never indexes out of range; each of its figures is one of the
-- durations, the percentiles are in order between the least and the greatest, and all durations lie
-- between those two.
pub summarize-Describes :
    (results : List ℕ) → 0 < length results → Describes results (summarize results)
unfolding summarize
summarize-Describes results h =
    let durations = sort ltb results in
    Describes-Perm durations results (summary_of durations) (sort-perm ltb results) (
      summary_of-Describes durations (omega (arith, length-sort ltb results))
        (sort-IsSorted ltb ltb_order results))
