-- ===== src/Sharding/Points.antt =====
-- Which points a list of nodes has on the ring.
use Prim.Native.Nat.{bit_xor}
use native.Mathlib.Nat.{mod-lt}
use shanshui_cunji.Prelude.{
  ℕ, zero, suc, ◌+◌, ◌*◌, ◌/◌, ◌%◌, ◌^◌, ◌≤◌, ◌<◌, ◌≡◌, refl, ap, List, [], ◌∷◌, ◌++◌, length, Mem,
  Mem-append, arith, inl, inr, append_assoc,
}
use shanshui_cunji.Bytes.{Bytes}
use shanshui_cunji.Bytes.Bits.{bit_xor-lt}
use shanshui_cunji.Sharding.Slice.{Point}
use shanshui_cunji.Sharding.{hash64, hash_str, node_points, ring_points, vnodes_per_node}

pub hash64-lt : (x : ℕ) → hash64 x < 2 ^ 64
unfolding hash64
hash64-lt x =
    let a = (x + 0x9E3779B97F4A7C15) % 2 ^ 64 in
    let b = bit_xor a (a / 2 ^ 30) * 0xBF58476D1CE4E5B9 % 2 ^ 64 in
    let c = bit_xor b (b / 2 ^ 27) * 0x94D049BB133111EB % 2 ^ 64 in
    let small : c < 2 ^ 64 = mod-lt (bit_xor b (b / 2 ^ 27) * 0x94D049BB133111EB) (omega arith) in
    bit_xor-lt 64 c (c / 2 ^ 31) small (omega arith)

-- A point of a node has the node's index and a position of 64 bits.
abbrev Belongs : ℕ → ℕ → Point → Type 0
Belongs first last (p, i) = (p < 2 ^ 64) × (first ≤ i) × (i < last)

node_points-Belongs :
    (i seed v count : ℕ) (p : Point) → Mem p (node_points i seed v count) → Belongs i (suc i) p
unfolding node_points
node_points-Belongs i seed v zero p h = elim h [ ]
node_points-Belongs i seed v (suc count) p (inl e) =
    rw (← e) (hash64-lt _, omega arith, omega arith)
node_points-Belongs i seed v (suc count) p (inr h) = node_points-Belongs i seed (suc v) count p h

pub ring_points-Belongs :
    (i : ℕ) (nodes : List Bytes) (p : Point)
    → Mem p (ring_points i nodes)
    → (p.0 < 2 ^ 64) × (i ≤ p.1) × (p.1 < i + length nodes)
unfolding ring_points
ring_points-Belongs i [] p h = elim h [ ]
ring_points-Belongs i (n ∷ ns) p h =
    elim (Mem-append p (node_points i (hash_str n) 0 vnodes_per_node) (ring_points (suc i) ns) h) [
      | inl m ↦ omega (arith, node_points-Belongs i (hash_str n) 0 vnodes_per_node p m)
      | inr m ↦ omega (arith, ring_points-Belongs (suc i) ns p m)
    ]

-- The points of two lists of nodes, one behind the other.
pub ring_points-append :
    (i : ℕ) (ms ns : List Bytes)
    → ring_points i (ms ++ ns) ≡ ring_points i ms ++ ring_points (i + length ms) ns
unfolding ring_points
ring_points-append i [] ns = let e : i + 0 ≡ i = omega arith in rw e refl
ring_points-append i (m ∷ ms) ns =
    let first = node_points i (hash_str m) 0 vnodes_per_node in
    let e : i + suc (length ms) ≡ suc i + length ms = omega arith in
    rw (e, append_assoc first (ring_points (suc i) ms) (ring_points (suc i + length ms) ns))
      (ap (λ r. first ++ r) (ring_points-append (suc i) ms ns))

-- A node has a point, so that no ring is empty.
pub some_point :
    (i : ℕ) (n : Bytes) (ns : List Bytes) → (p : Point) × Mem p (ring_points i (n ∷ ns))
unfolding ring_points node_points
some_point i n ns = (_, inl refl)
