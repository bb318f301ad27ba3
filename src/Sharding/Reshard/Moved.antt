-- ===== src/Sharding/Reshard/Moved.antt =====
-- A new node only takes shards over: no shard moves between the old nodes.
use shanshui_cunji.Prelude.{
  ℕ, zero, suc, ◌+◌, ◌≤◌, ◌<◌, ◌≡◌, refl, sym, ap, ◌∙◌, List, [], ◌∷◌, ◌++◌, Bool, true, false,
  ◌==◌, if◌then◌else◌, contains, length, not, Mem, Mem-append, Mem-append_left, arith, inl, inr,
  ◌⊎◌, Bool-cases,
}
use shanshui_cunji.Bytes.{Bytes}
use shanshui_cunji.Errors.{ok}
use shanshui_cunji.Sharding.Slice.{Point, SliceMethods}
use shanshui_cunji.Sharding.{ShardRouter, new, node_of_virtual_shard, ring_points, hash64}
use shanshui_cunji.Sharding.Points.{ring_points-Belongs, ring_points-append}
use shanshui_cunji.Sharding.Clockwise.{IsNext, node_of_virtual_shard-IsNext}
use shanshui_cunji.Sharding.Reshard.{moved_from, compute_moved_vshards}

-- A virtual shard is settled if no two nodes have a point that follows its hash.
abbrev pub IsSettled : List Bytes → ℕ → Type 0
IsSettled nodes v =
    (p q : Point)
    → IsNext (ring_points 0 nodes) (hash64 v) p
    → IsNext (ring_points 0 nodes) (hash64 v) q
    → p.1 ≡ q.1

-- A grown ring gives a shard to the added node, or to whichever node owned it.
pub taken_or_kept :
    (nodes : List Bytes) (added : Bytes) (v : ℕ) (p q : Point)
    → IsSettled (nodes ++ (added ∷ [])) v
    → IsNext (ring_points 0 nodes) (hash64 v) p
    → IsNext (ring_points 0 (nodes ++ (added ∷ []))) (hash64 v) q
    → (q.1 ≡ length nodes) ⊎ (q.1 ≡ p.1)
taken_or_kept nodes added v p q settled n m =
    let both = ring_points-append 0 nodes (added ∷ []) in
    let last = ring_points (0 + length nodes) (added ∷ []) in
    let p_stays : Mem p (ring_points 0 (nodes ++ (added ∷ []))) =
      rw both (Mem-append_left p (ring_points 0 nodes) last n.here) in
    elim (Mem-append q (ring_points 0 nodes) last (rw both at m.here)) [
      | inl old ↦ inr (
          settled q p m
            (record { here = p_stays; least = λ o h. omega (arith, n.least q old, m.least o h) }))
      | inr new' ↦ inl (omega (arith, ring_points-Belongs (0 + length nodes) (added ∷ []) q new'))
    ]

module _ (f g : ℕ → ℕ) where
  moved_list : ℕ → ℕ → List ℕ
  moved_list v zero = []
  moved_list v (suc count) =
      let rest = moved_list (suc v) count in if f v == g v then rest else v ∷ rest

  moved_list_above : (v count w : ℕ) → w < v → contains (moved_list v count) w ≡ false
  unfolding moved_list
  moved_list_above v zero w h = refl
  moved_list_above v (suc count) w h =
      ground (arith, moved_list_above (suc v) count w (omega arith))

  contains-moved_list :
      (v count w : ℕ) → v ≤ w → w < v + count → contains (moved_list v count) w ≡ not (f w == g w)
  unfolding moved_list
  contains-moved_list v zero w h l = absurd (omega arith)
  contains-moved_list v (suc count) w h l = elim (Bool-cases (v == w)) [
    | inl here ↦
        let same : v ≡ w = ground arith in
        rw same (ground (arith, moved_list_above (suc w) count w (omega arith)))
    | inr further ↦ ground (arith, contains-moved_list (suc v) count w (ground arith) (omega arith))
  ]

module _ (slice : SliceMethods) (old grown : ShardRouter) (f g : ℕ → ℕ)
    (before : (v : ℕ) → node_of_virtual_shard slice old v ≡ ok (f v))
    (after : (v : ℕ) → node_of_virtual_shard slice grown v ≡ ok (g v)) where
  moved_from-moved_list :
      (v count : ℕ) → moved_from slice old grown v count ≡ ok (moved_list f g v count)
  unfolding moved_from moved_list
  moved_from-moved_list v zero = refl
  moved_from-moved_list v (suc count) =
      rw (before v, after v, moved_from-moved_list (suc v) count) refl

module _ (slice : SliceMethods) (virtual_shards : ℕ) (nodes : List Bytes) (added : Bytes)
    (old grown : ShardRouter) (made : new slice virtual_shards nodes ≡ ok old)
    (made_grown : new slice virtual_shards (nodes ++ (added ∷ [])) ≡ ok grown)
    (settled : (v : ℕ) → v < virtual_shards → IsSettled (nodes ++ (added ∷ [])) v) where
  owner_before : ℕ → ℕ
  owner_before v = (node_of_virtual_shard-IsNext slice virtual_shards nodes old made v).0.1

  owner_after : ℕ → ℕ
  owner_after v =
      (node_of_virtual_shard-IsNext slice virtual_shards (nodes ++ (added ∷ [])) grown made_grown
        v).0.1

  verdict :
      {listed : Bool} (v : ℕ)
      → v < virtual_shards
      → listed ≡ not (owner_before v == owner_after v)
      → (listed ≡ true) × (node_of_virtual_shard slice grown v ≡ ok (length nodes))
        ⊎ (listed ≡ false)
          × (node_of_virtual_shard slice grown v ≡ node_of_virtual_shard slice old v)
  unfolding owner_before owner_after
  verdict v h e =
      let (p, old_is, n) = node_of_virtual_shard-IsNext slice virtual_shards nodes old made v in
      let (q, grown_is, m) =
        node_of_virtual_shard-IsNext slice virtual_shards (nodes ++ (added ∷ [])) grown made_grown
          v in
      elim (Bool-cases (p.1 == q.1)) [
        | inl same ↦
            let eq' : p.1 ≡ q.1 = ground arith in
            inr (e ∙ ap not same, grown_is ∙ ap ok (sym eq') ∙ sym old_is)
        | inr other ↦
            let taken : q.1 ≡ length nodes =
              ground (arith, taken_or_kept nodes added v p q (settled v h) n m) in
            inl (e ∙ ap not other, grown_is ∙ ap ok taken)
      ]

  -- When a node is added, the migration set is computed, and it is right: a virtual shard in it goes to
  -- the added node, and one outside keeps its node, provided that no two nodes have a point that
  -- follows a shard's hash.
  pub compute_moved_vshards_lem :
      (moved : List ℕ) × (compute_moved_vshards slice nodes (nodes ++ (added ∷ [])) virtual_shards
        ≡ ok moved)
      × ((v : ℕ)
          → v < virtual_shards
          → (contains moved v ≡ true) × (node_of_virtual_shard slice grown v ≡ ok (length nodes))
            ⊎ (contains moved v ≡ false)
              × (node_of_virtual_shard slice grown v ≡ node_of_virtual_shard slice old v))
  unfolding compute_moved_vshards owner_before owner_after
  compute_moved_vshards_lem =
      let whole = contains-moved_list owner_before owner_after 0 virtual_shards in
      (
        moved_list owner_before owner_after 0 virtual_shards,
        rw (made, made_grown)
            (moved_from-moved_list slice old grown owner_before owner_after
              (λ v. (node_of_virtual_shard-IsNext slice virtual_shards nodes old made v).1)
              (λ v.
                (node_of_virtual_shard-IsNext slice virtual_shards (nodes ++ (added ∷ [])) grown
                  made_grown v).1)
              0 virtual_shards),
        λ v h. verdict v h (whole v (omega arith) (omega arith)),
      )
