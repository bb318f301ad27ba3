-- ===== src/Sharding/Names.antt =====
-- Ownership by name: which node owns a position does not depend on the order of the nodes.
use shanshui_cunji.Prelude.{
  ℕ, zero, suc, ◌+◌, ◌≤◌, ◌≡◌, refl, sym, ap, List, [], ◌∷◌, some, get_elem?, Mem, Mem-append,
  Mem-append_left, Mem-append_right, Mem-get_elem?, Mem-index, arith, inl, inr,
}
use shanshui_cunji.Bytes.{Bytes}
use shanshui_cunji.Sharding.Slice.{Point}
use shanshui_cunji.Sharding.{hash_str, node_points, ring_points, vnodes_per_node}
use shanshui_cunji.Sharding.Clockwise.{clockwise, IsNext}

-- A node of this name has a point at `p`.
abbrev pub PointOf : Bytes → ℕ → Type 0
PointOf name p = Mem (p, 0) (node_points 0 (hash_str name) 0 vnodes_per_node)

-- One of the names has a point at `p`, and none has a point before it.
pub record IsOwner (names : List Bytes) (pos p : ℕ) (name : Bytes) : Type 0 where
  pub known : Mem name names
  pub point : PointOf name p
  pub least :
      (other : Bytes) (q : ℕ)
      → Mem other names
      → PointOf other q
      → clockwise pos p ≤ clockwise pos q

relabel :
    (i j seed v count p : ℕ)
    → Mem (p, i) (node_points i seed v count)
    → Mem (p, j) (node_points j seed v count)
unfolding node_points
relabel i j seed v zero p h = elim h [ ]
relabel i j seed v (suc count) p (inl e) = inl (ap (λ (x : Point). (x.0, j)) e)
relabel i j seed v (suc count) p (inr h) = inr (relabel i j seed (suc v) count p h)

label_of : (i seed v count : ℕ) (q : Point) → Mem q (node_points i seed v count) → q.1 ≡ i
unfolding node_points
label_of i seed v zero q h = elim h [ ]
label_of i seed v (suc count) q (inl e) = sym (ap (λ (x : Point). x.1) e)
label_of i seed v (suc count) q (inr h) = label_of i seed (suc v) count q h

-- Every point on the ring is one of the node with its index, and the other way around.
ring_point-PointOf :
    (k : ℕ) (names : List Bytes) (p i : ℕ)
    → Mem (p, i) (ring_points k names)
    → (j : ℕ) × (name : Bytes) × (i ≡ k + j) × (get_elem? names j ≡ some name) × PointOf name p
unfolding ring_points
ring_point-PointOf k [] p i h = elim h [ ]
ring_point-PointOf k (n ∷ ns) p i h =
    elim (Mem-append (p, i) (node_points k (hash_str n) 0 vnodes_per_node) (ring_points (suc k) ns)
      h) [
        | inl m ↦
            let here : i ≡ k = label_of k (hash_str n) 0 vnodes_per_node (p, i) m in
            (0, n, omega arith, refl, relabel k 0 (hash_str n) 0 vnodes_per_node p (rw here at m))
        | inr m ↦
            let (j, name, e, f, o) = ring_point-PointOf (suc k) ns p i m in
            (suc j, name, omega arith, f, o)
      ]

PointOf-ring_point :
    (k : ℕ) (names : List Bytes) (j : ℕ) (name : Bytes) (p : ℕ)
    → get_elem? names j ≡ some name
    → PointOf name p
    → Mem (p, k + j) (ring_points k names)
unfolding ring_points
PointOf-ring_point k [] j name p e h = cc
PointOf-ring_point k (n ∷ ns) zero name p e h =
    let same : n ≡ name = cc in
    let at_k : k + 0 ≡ k = omega arith in
    rw (same, at_k)
      (Mem-append_left (p, k) (node_points k (hash_str name) 0 vnodes_per_node)
        (ring_points (suc k) ns) (relabel 0 k (hash_str name) 0 vnodes_per_node p h))
PointOf-ring_point k (n ∷ ns) (suc j) name p e h =
    let further : k + suc j ≡ suc k + j = omega arith in
    rw further (
      Mem-append_right (p, suc k + j) (node_points k (hash_str n) 0 vnodes_per_node)
        (ring_points (suc k) ns) (PointOf-ring_point (suc k) ns j name p e h))

module _ (names : List Bytes) (pos : ℕ) where
  pub IsNext-IsOwner :
      (p : Point)
      → IsNext (ring_points 0 names) pos p
      → (name : Bytes) × (get_elem? names p.1 ≡ some name) × IsOwner names pos p.0 name
  IsNext-IsOwner p n =
      let (j, name, i, e, o) = ring_point-PointOf 0 names p.0 p.1 n.here in
      let same : p.1 ≡ j = omega arith in
      (
        name,
        rw same e,
        record {
          known = Mem-get_elem? names j e;
          point = o;
          least = λ other q m h.
              let (k, f, l) = Mem-index other names m in
              n.least (q, 0 + k) (PointOf-ring_point 0 names k other q f h);
        },
      )

  pub IsOwner-IsNext :
      (p : ℕ) (name : Bytes)
      → IsOwner names pos p name
      → (i : ℕ) × (get_elem? names i ≡ some name) × IsNext (ring_points 0 names) pos (p, i)
  IsOwner-IsNext p name o =
      let (i, e, l) = Mem-index name names o.known in
      let at_i : 0 + i ≡ i = omega arith in
      (
        i,
        e,
        record {
          here = rw at_i at (PointOf-ring_point 0 names i name p e o.point);
          least = λ q h.
              let (j, other, l', f, m) = ring_point-PointOf 0 names q.0 q.1 h in
              o.least other q.0 (Mem-get_elem? names j f) m;
        },
      )

-- The owner stays when the nodes are listed in another order.
pub IsOwner_reordered :
    (xs ys : List Bytes) (pos p : ℕ) (name : Bytes)
    → ((n : Bytes) → Mem n xs → Mem n ys)
    → ((n : Bytes) → Mem n ys → Mem n xs)
    → IsOwner xs pos p name
    → IsOwner ys pos p name
IsOwner_reordered xs ys pos p name f g o = record {
  known = f name o.known;
  point = o.point;
  least = λ other q m h. o.least other q (g other m) h;
}
