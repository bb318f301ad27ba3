-- ===== src/Sharding/Insertion.antt =====
-- An insertion sort and a search from the front, which are as Rust documents its slice methods.
use shanshui_cunji.Prelude.{
  ℕ, zero, suc, ◌≤◌, ◌<◌, ◌≡◌, refl, List, [], ◌∷◌, some, get_elem?, ltb, ◌==◌, if◌then◌else◌,
  arith, inl, inr, All, All-map, Bool-cases, ltb→lt,
}
use shanshui_cunji.Prelude.Sorting.{insert_row, sort_by_key, sort_by_key-Mem}
use shanshui_cunji.Sharding.Slice.{Point, Search, found, missing, IsSorted, Finds, SliceMethods}

abbrev pub later : Search → Search
later (found i) = found (suc i)
later (missing i) = missing (suc i)

unfoldable pub search : List Point → ℕ → Search
search [] key = missing 0
search (q ∷ ring) key =
    let rest = search ring key in
    if q.0 == key then found 0 else if ltb q.0 key then later rest else missing 0

abbrev pub Ordered : List Point → Type 0
Ordered [] = Unit
Ordered (p ∷ ring) = All (λ q. p.0 ≤ q.0) ring × Ordered ring

insert_row-All :
    (low : ℕ) (p : Point) (ring : List Point)
    → low ≤ p.0
    → All (λ q. low ≤ q.0) ring
    → All (λ q. low ≤ q.0) (insert_row p ring)
unfolding insert_row
insert_row-All low p [] h a = (h, tt)
insert_row-All low p (q ∷ ring) h (b, a) = elim (Bool-cases (ltb q.0 p.0)) [
  | inl e ↦ rw e (b, insert_row-All low p ring h a)
  | inr e ↦ rw e (h, (b, a))
]

insert_row-Ordered : (p : Point) (ring : List Point) → Ordered ring → Ordered (insert_row p ring)
unfolding insert_row
insert_row-Ordered p [] o = (tt, tt)
insert_row-Ordered p (q ∷ ring) (a, o) = elim (Bool-cases (ltb q.0 p.0)) [
  | inl e ↦
      let h : q.0 ≤ p.0 = ground (arith, ltb→lt q.0 p.0 e) in
      rw e (insert_row-All q.0 p ring h a, insert_row-Ordered p ring o)
  | inr e ↦
      let h : p.0 ≤ q.0 = ground arith in rw e ((h, All-map ring (λ r g. omega arith) a), (a, o))
]

pub sort_by_key-Ordered : (points : List Point) → Ordered (sort_by_key points)
unfolding sort_by_key
sort_by_key-Ordered [] = tt
sort_by_key-Ordered (p ∷ points) =
    insert_row-Ordered p (sort_by_key points) (sort_by_key-Ordered points)

All-get_elem? :
    (P : Point → Type 0) (ring : List Point) (i : ℕ) (q : Point)
    → All P ring
    → get_elem? ring i ≡ some q
    → P q
All-get_elem? P [] i q a e = cc
All-get_elem? P (p ∷ ring) zero q a e = let same : p ≡ q = cc in rw same at a.0
All-get_elem? P (p ∷ ring) (suc i) q a e = All-get_elem? P ring i q a.1 e

pub Ordered-IsSorted : (ring : List Point) → Ordered ring → IsSorted ring
Ordered-IsSorted [] o i j p q h e g = cc
Ordered-IsSorted (r ∷ ring) (a, o) zero zero p q h e g =
    let same : p ≡ q = cc in rw same (omega arith)
Ordered-IsSorted (r ∷ ring) (a, o) zero (suc j) p q h e g =
    let same : r ≡ p = cc in rw (← same) (All-get_elem? (λ s. r.0 ≤ s.0) ring j q a g)
Ordered-IsSorted (r ∷ ring) (a, o) (suc i) zero p q h e g = absurd (omega arith)
Ordered-IsSorted (r ∷ ring) (a, o) (suc i) (suc j) p q h e g =
    Ordered-IsSorted ring o i j p q (omega arith) e g

Finds-later :
    (q : Point) (ring : List Point) (key : ℕ) (o : Search)
    → q.0 < key
    → Finds ring key o
    → Finds (q ∷ ring) key (later o)
Finds-later q ring key (found i) h f = f
Finds-later q ring key (missing i) h (l, below, above) = (omega arith, before, after)
  where
    before : (j : ℕ) (r : Point) → get_elem? (q ∷ ring) j ≡ some r → j < suc i → r.0 < key
    before zero r e lt = let same : q ≡ r = cc in rw same at h
    before (suc j) r e lt = below j r e (omega arith)

    after : (j : ℕ) (r : Point) → get_elem? (q ∷ ring) j ≡ some r → suc i ≤ j → key < r.0
    after zero r e le = absurd (omega arith)
    after (suc j) r e le = above j r e (omega arith)

pub search-Finds : (ring : List Point) (key : ℕ) → Ordered ring → Finds ring key (search ring key)
unfolding search
search-Finds [] key o = (omega arith, (λ j q e l. cc), (λ j q e l. cc))
search-Finds (q ∷ ring) key (a, o) = elim (Bool-cases (q.0 == key)) [
  | inl e ↦ rw e (q, refl, ground arith)
  | inr e ↦ elim (Bool-cases (ltb q.0 key)) [
    | inl l ↦
        rw (e, l)
          (Finds-later q ring key (search ring key) (ltb→lt q.0 key l) (search-Finds ring key o))
    | inr l ↦
        let above : key < q.0 = ground arith in
        rw (e, l)
          (
            omega arith,
            (λ j r f g. absurd (omega arith)),
            (λ j r f g.
                omega
                  (arith, above, Ordered-IsSorted (q ∷ ring) (a, o) 0 j q r (omega arith) refl f)),
          )
  ]
]

-- `Ordered` is what the sort gives, and what the search needs of a list is a hypothesis there.
pub IsSorted-Ordered : (ring : List Point) → IsSorted ring → Ordered ring
IsSorted-Ordered [] s = tt
IsSorted-Ordered (p ∷ ring) s = (
  heads ring (λ i q e. s 0 (suc i) p q (omega arith) refl e),
  IsSorted-Ordered ring (λ i j q r h e f. s (suc i) (suc j) q r (omega arith) e f),
)
  where
    heads :
        (xs : List Point)
        → ((i : ℕ) (q : Point) → get_elem? xs i ≡ some q → p.0 ≤ q.0)
        → All (λ q. p.0 ≤ q.0) xs
    heads [] h = tt
    heads (x ∷ xs) h = (h 0 x refl, heads xs (λ i. h (suc i)))

unfoldable pub insertion : SliceMethods
unfolding sort_by_key search
insertion = record {
  sort_unstable_by_key = sort_by_key;
  binary_search_by_key = search;
  sort-IsSorted = λ points. Ordered-IsSorted (sort_by_key points) (sort_by_key-Ordered points);
  sort-Mem = sort_by_key-Mem;
  search-Finds = λ ring key s. search-Finds ring key (IsSorted-Ordered ring s);
}
