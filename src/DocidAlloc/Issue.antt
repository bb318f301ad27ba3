-- ===== src/DocidAlloc/Issue.antt =====
-- Document ids issued over any sequence of calls never collide.
use shanshui_cunji.Prelude.{
  ℕ, suc, ◌+◌, ◌%◌, ◌^◌, ◌≤◌, ◌<◌, ◌≡◌, refl, Option, none, some, List, [], ◌∷◌, arith,
  Option-cases, inl, inr, length, get_elem?, get_elem?-set, get_elem?-lt, get_elem?-some, set, All,
  All-map, Distinct, if◌then◌else◌, ◌==◌,
}
use shanshui_cunji.Errors.{Result, ok, err, panic}
use shanshui_cunji.DocidAlloc.{
  ShardLocalAllocator, DocIdAllocator, shard_of, local_of, alloc_local, alloc,
}
use shanshui_cunji.DocidAlloc.Codec.{parts-encode}

-- The counter of shard `s`, 0 where there is no such shard.
abbrev counter : Option ShardLocalAllocator → ℕ
counter none = 0
counter (some s) = s.next

unfoldable pub next_of : DocIdAllocator → ℕ → ℕ
next_of a s = counter (get_elem? a.shards s)

-- No counter wraps within `calls` more calls.
pub record HasRoom (a : DocIdAllocator) (calls : ℕ) : Type 0 where
  pub no_wrap : (s : ℕ) → next_of a s + calls < 2 ^ 64

-- What one call does to the counters, and the id that it may issue.
record Moves (a : DocIdAllocator) (s : ℕ) (r : Result ℕ) (a' : DocIdAllocator) : Type 0 where
  grows : (j : ℕ) → next_of a j ≤ next_of a' j
  by_one : (j : ℕ) → next_of a' j ≤ next_of a j + 1
  issues :
      (d : ℕ)
      → r ≡ ok d
      → (shard_of d ≡ s) × (local_of d ≡ next_of a s) × (next_of a' s ≡ next_of a s + 1)

counter-set :
    (shards : List ShardLocalAllocator) (s j : ℕ) (b : ShardLocalAllocator)
    → s < length shards
    → counter (get_elem? (set shards s b) j)
      ≡ (if s == j then b.next else counter (get_elem? shards j))
counter-set shards s j b h =
    let (t, e) = get_elem?-some shards s h in ground (arith, get_elem?-set shards s j b, e)

alloc-Moves :
    (a : DocIdAllocator) (s calls : ℕ)
    → s < 2 ^ 16
    → HasRoom a (suc calls)
    → Moves a s (alloc a s).0 (alloc a s).1
unfolding alloc next_of alloc_local
alloc-Moves a s calls hs h = elim (Option-cases (get_elem? a.shards s)) [
  | inl e ↦
      rw e (record { grows = λ j. omega arith; by_one = λ j. omega arith; issues = λ d q. cc })
  | inr (t, e) ↦
      let b : ShardLocalAllocator = record { next = (t.next + 1) % 2 ^ 64 } in
      let moved = λ (j : ℕ). counter-set a.shards s j b (get_elem?-lt a.shards s e) in
      rw e (record {
        grows = λ j. ground (arith, e, moved j, h.no_wrap s);
        by_one = λ j. ground (arith, e, moved j, h.no_wrap s);
        issues = λ d q. ground (arith, e, moved s, h.no_wrap s, parts-encode s t.next hs);
      })
]

abbrev pub keep_ok : Result ℕ → List ℕ → List ℕ
keep_ok (ok d) later = d ∷ later
keep_ok (err e) later = later
keep_ok panic later = later

-- The ids that a sequence of calls issues; refused calls issue none.
unfoldable pub issued : DocIdAllocator → List ℕ → List ℕ
issued a [] = []
issued a (s ∷ rest) = keep_ok (alloc a s).0 (issued (alloc a s).1 rest)

HasRoom-alloc :
    (a : DocIdAllocator) (s calls : ℕ)
    → s < 2 ^ 16
    → HasRoom a (suc calls)
    → HasRoom (alloc a s).1 calls
HasRoom-alloc a s calls hs h =
    let m = alloc-Moves a s calls hs h in
    record { no_wrap = λ j. omega (arith, m.by_one j, h.no_wrap j) }

-- Every id issued from now on lies at or above its shard's counter.
abbrev Above : DocIdAllocator → ℕ → Type 0
Above a d = next_of a (shard_of d) ≤ local_of d

module _ (a a' : DocIdAllocator) (s : ℕ) (later : List ℕ) (above : All (Above a') later) where
  keep_ok-Above : (r : Result ℕ) → Moves a s r a' → All (Above a) (keep_ok r later)
  keep_ok-Above (ok d) m =
      let (shard, low, _) = m.issues d refl in
      (rw shard (omega arith), All-map later (λ x h. omega (arith, m.grows (shard_of x))) above)
  keep_ok-Above (err e) m = All-map later (λ x h. omega (arith, m.grows (shard_of x))) above
  keep_ok-Above panic m = All-map later (λ x h. omega (arith, m.grows (shard_of x))) above

  keep_ok-Distinct : (r : Result ℕ) → Moves a s r a' → Distinct later → Distinct (keep_ok r later)
  keep_ok-Distinct (ok d) m h =
      let (shard, low, next) = m.issues d refl in
      (
        All-map later
            (λ y hy e.
              let at_d : Above a' d = rw e hy in
              let bound : next_of a' s ≤ local_of d = rw shard at at_d in absurd (omega arith))
            above,
        h,
      )
  keep_ok-Distinct (err e) m h = h
  keep_ok-Distinct panic m h = h

issued-Above :
    (calls : List ℕ) (a : DocIdAllocator)
    → All (λ s. s < 2 ^ 16) calls
    → HasRoom a (length calls)
    → All (Above a) (issued a calls)
unfolding issued
issued-Above [] a hs h = tt
issued-Above (s ∷ rest) a hs h =
    let a' = (alloc a s).1 in
    keep_ok-Above a a' s (issued a' rest)
      (issued-Above rest a' hs.1 (HasRoom-alloc a s (length rest) hs.0 h)) (alloc a s).0
      (alloc-Moves a s (length rest) hs.0 h)

-- Over any sequence of calls for shard numbers below 2^16 no document id is issued twice, while no
-- counter wraps at 2^64.
pub issued-Distinct :
    (calls : List ℕ) (a : DocIdAllocator)
    → All (λ s. s < 2 ^ 16) calls
    → HasRoom a (length calls)
    → Distinct (issued a calls)
unfolding issued
issued-Distinct [] a hs h = tt
issued-Distinct (s ∷ rest) a hs h =
    let a' = (alloc a s).1 in
    let room = HasRoom-alloc a s (length rest) hs.0 h in
    keep_ok-Distinct a a' s (issued a' rest) (issued-Above rest a' hs.1 room) (alloc a s).0
      (alloc-Moves a s (length rest) hs.0 h) (issued-Distinct rest a' hs.1 room)
