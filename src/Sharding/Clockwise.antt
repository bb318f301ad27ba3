-- ===== src/Sharding/Clockwise.antt =====
-- The owner of a virtual shard is the node whose point follows clockwise.
use native.Mathlib.Nat.{mod-eq_of_lt, mod_self}
use shanshui_cunji.Prelude.{
  Bool-cases, ltb, ap, ℕ, zero, suc, ◌+◌, ◌-◌, ◌%◌, ◌^◌, ◌≤◌, ◌<◌, ◌≡◌, refl, List, [], ◌∷◌, some,
  length, get_elem?, get_elem?-some, get_elem?-lt, Mem, Mem-get_elem?, Mem-index, leb,
  if◌then◌else◌, arith, inl, inr,
}
use shanshui_cunji.Bytes.{Bytes}
use shanshui_cunji.Errors.{ok}
use shanshui_cunji.Sharding.Slice.{Point, Search, found, missing, SliceMethods, IsSorted, Finds}
use shanshui_cunji.Sharding.{
  ShardRouter, hash64, new, ring_points, rem, owner, node_of_virtual_shard, virtual_shard_of, route,
  route_node, node_id,
}
use shanshui_cunji.Sharding.Points.{ring_points-Belongs, some_point}

-- How far a point is from `pos`, upwards and around.
unfoldable pub clockwise : ℕ → ℕ → ℕ
clockwise pos p = if leb pos p then p - pos else p + 2 ^ 64 - pos

-- A point of `node` that no other point comes before.
pub record IsNext (points : List Point) (pos : ℕ) (p : Point) : Type 0 where
  pub here : Mem p points
  pub least : (q : Point) → Mem q points → clockwise pos p.0 ≤ clockwise pos q.0

rem_lt : (i n : ℕ) → i < n → rem i n ≡ ok i
rem_lt i zero h = absurd (omega arith)
rem_lt i (suc n) h = ap ok (mod-eq_of_lt h)

pub rem_pos : (a n : ℕ) → 0 < n → rem a n ≡ ok (a % n)
rem_pos a zero h = absurd (omega arith)
rem_pos a (suc n) h = refl

rem_self : (n : ℕ) → 0 < n → rem n n ≡ ok 0
rem_self zero h = absurd (omega arith)
rem_self (suc n) h = ap ok (mod_self (suc n))

module _ (ring : List Point) (sorted : IsSorted ring)
    (bound : (q : Point) → Mem q ring → q.0 < 2 ^ 64) where
  -- The point at `i` follows if the keys before `i` are below the position and those from `i` on are not.
  split-IsNext :
      (pos i : ℕ) (p : Point)
      → get_elem? ring i ≡ some p
      → pos ≤ p.0
      → ((j : ℕ) (q : Point) → get_elem? ring j ≡ some q → j < i → q.0 < pos)
      → IsNext ring pos p
  unfolding clockwise
  split-IsNext pos i p e h below = record {
    here = Mem-get_elem? ring i e;
    least = λ q m.
        let (j, f, l) = Mem-index q ring m in
        ground (arith, bound p (Mem-get_elem? ring i e), bound q m, below j q f, sorted i j p q);
  }

  -- Behind the last key the first one follows.
  wrap-IsNext :
      (pos : ℕ) (p : Point)
      → get_elem? ring 0 ≡ some p
      → ((j : ℕ) (q : Point) → get_elem? ring j ≡ some q → q.0 < pos)
      → IsNext ring pos p
  unfolding clockwise
  wrap-IsNext pos p e below = record {
    here = Mem-get_elem? ring 0 e;
    least = λ q m.
        let (j, f, l) = Mem-index q ring m in
        ground (arith, below 0 p e, below j q f, sorted 0 j p q);
  }

  owner_missing :
      (pos i : ℕ)
      → 0 < length ring
      → Finds ring pos (missing i)
      → (p : Point) × (owner ring (missing i) ≡ ok p) × IsNext ring pos p
  unfolding owner
  owner_missing pos i some_point (l, below, above) = elim (Bool-cases (ltb i (length ring))) [
    | inl lt ↦
        let inside : i < length ring = ground arith in
        let (p, e) = get_elem?-some ring i inside in
        let r : rem i (length ring) ≡ ok i = rem_lt i (length ring) inside in
        let above_p : pos < p.0 = above i p e (omega arith) in
        (p, rw (r, e) refl, split-IsNext pos i p e (omega arith) below)
    | inr ge ↦
        let end_of : i ≡ length ring = ground arith in
        let (p, e) = get_elem?-some ring 0 some_point in
        let r : rem i (length ring) ≡ ok 0 = rw end_of (rem_self (length ring) some_point) in
        (
          p,
          rw (r, e) refl,
          wrap-IsNext pos p e (λ j q f. below j q f (omega (arith, get_elem?-lt ring j f))),
        )
  ]

  owner-IsNext :
      (pos : ℕ) (o : Search)
      → 0 < length ring
      → Finds ring pos o
      → (p : Point) × (owner ring o ≡ ok p) × IsNext ring pos p
  unfolding owner clockwise
  owner-IsNext pos (missing i) some_point f = owner_missing pos i some_point f
  owner-IsNext pos (found i) some_point (p, e, k) =
      (p, rw e refl, record { here = Mem-get_elem? ring i e; least = λ q m. ground arith })

-- What `new` builds.
record IsBuilt (slice : SliceMethods) (virtual_shards : ℕ) (nodes : List Bytes) (r : ShardRouter)
    : Type 0 where
  pub ring_is : r.ring ≡ slice.sort_unstable_by_key (ring_points 0 nodes)
  pub nodes_are : r.nodes ≡ nodes
  pub shards_are : r.virtual_shards ≡ virtual_shards
  pub a_point : (p : Point) × Mem p (ring_points 0 nodes)

new-IsBuilt :
    (slice : SliceMethods) (virtual_shards : ℕ) (nodes : List Bytes) (r : ShardRouter)
    → new slice virtual_shards nodes ≡ ok r
    → IsBuilt slice virtual_shards nodes r
unfolding new
new-IsBuilt slice virtual_shards [] r made = cc
new-IsBuilt slice virtual_shards (n ∷ ns) r made =
    let same : record {
      virtual_shards = virtual_shards;
      nodes = n ∷ ns;
      ring = slice.sort_unstable_by_key (ring_points 0 (n ∷ ns));
    }
        ≡ r =
      cc in
    record {
      ring_is = rw (← same) refl;
      nodes_are = rw (← same) refl;
      shards_are = rw (← same) refl;
      a_point = some_point 0 n ns;
    }

pub new-ok :
    (slice : SliceMethods) (virtual_shards : ℕ) (nodes : List Bytes)
    → 0 < length nodes
    → (r : ShardRouter) × (new slice virtual_shards nodes ≡ ok r)
unfolding new
new-ok slice virtual_shards [] h = absurd (omega arith)
new-ok slice virtual_shards (n ∷ ns) h = (_, refl)

module _ (slice : SliceMethods) (virtual_shards : ℕ) (nodes : List Bytes) (r : ShardRouter)
    (made : new slice virtual_shards nodes ≡ ok r) where
  -- The owner of every virtual shard is found: it has a point on the ring that no point of any node
  -- precedes, clockwise from the shard's hash.
  pub node_of_virtual_shard-IsNext :
      (vshard : ℕ)
      → (p : Point) × (node_of_virtual_shard slice r vshard ≡ ok p.1)
        × IsNext (ring_points 0 nodes) (hash64 vshard) p
  unfolding node_of_virtual_shard
  node_of_virtual_shard-IsNext vshard =
      let built = new-IsBuilt slice virtual_shards nodes r made in
      let ring = slice.sort_unstable_by_key (ring_points 0 nodes) in
      let sorted : IsSorted ring = slice.sort-IsSorted (ring_points 0 nodes) in
      let (some_p, m) = built.a_point in
      let (j, e, l) = Mem-index some_p ring ((slice.sort-Mem (ring_points 0 nodes) some_p).1 m) in
      let (p, found_p, next) =
        owner-IsNext ring sorted
          (λ q h. (ring_points-Belongs 0 nodes q ((slice.sort-Mem (ring_points 0 nodes) q).0 h)).0)
          (hash64 vshard) (slice.binary_search_by_key ring (hash64 vshard)) (omega arith)
          (slice.search-Finds ring (hash64 vshard) sorted) in
      (
        p,
        rw (built.ring_is, found_p) refl,
        record {
          here = (slice.sort-Mem (ring_points 0 nodes) p).0 next.here;
          least = λ q h. next.least q ((slice.sort-Mem (ring_points 0 nodes) q).1 h);
        },
      )

  -- With at least one virtual shard every document has one, and is routed to the node that owns it.
  pub route_lem :
      (docid : ℕ)
      → 0 < virtual_shards
      → (i : ℕ) × (n : Bytes) × (virtual_shard_of r docid ≡ ok (hash64 docid % virtual_shards))
        × (node_of_virtual_shard slice r (hash64 docid % virtual_shards) ≡ ok i)
        × (route slice r docid ≡ ok i)
        × (get_elem? nodes i ≡ some n)
        × (route_node slice r docid ≡ ok n)
  unfolding route route_node node_id virtual_shard_of
  route_lem docid h =
      let built = new-IsBuilt slice virtual_shards nodes r made in
      let shard : rem (hash64 docid) r.virtual_shards ≡ ok (hash64 docid % virtual_shards) =
        rw built.shards_are (rem_pos (hash64 docid) virtual_shards h) in
      let (p, owned, next) = node_of_virtual_shard-IsNext (hash64 docid % virtual_shards) in
      let (n, e) =
        get_elem?-some nodes p.1 (omega (arith, ring_points-Belongs 0 nodes p next.here)) in
      (p.1, n, shard, owned, rw (shard, owned) refl, e, rw (shard, owned, built.nodes_are, e) refl)
