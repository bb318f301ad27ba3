-- ===== src/Tests/ShardRuns.antt =====
-- Two nodes on a ring of four virtual shards, and a third that joins.
use shanshui_cunji.Prelude.{
  ap, leb, leb→le, Bool-cases, sym, ◌∙◌, if◌then◌else◌, ◌≤◌, ℕ, zero, suc, ◌<◌, ◌≡◌, refl, List, [],
  ◌∷◌, Bool, true, false, ◌&&◌, ◌||◌, ◌==◌, inl, inr, ◌⊎◌, Mem, arith, contains,
}
use shanshui_cunji.Errors.{ok}
use shanshui_cunji.Bytes.{Bytes}
use shanshui_cunji.Sharding.Slice.{Point}
use shanshui_cunji.Sharding.Insertion.{insertion}
use shanshui_cunji.Sharding.{
  ShardRouter, new, node_of_virtual_shard, ring_points, node_points, hash64, hash_str,
}
use shanshui_cunji.Sharding.Reshard.{compute_moved_vshards, Migration, new_migration, is_migrating}
use shanshui_cunji.Sharding.Points.{ring_points-Belongs}
use shanshui_cunji.Sharding.Clockwise.{clockwise, IsNext, node_of_virtual_shard-IsNext}
use shanshui_cunji.Sharding.Reshard.Moved.{IsSettled, compute_moved_vshards_lem}

abbrev pub node_a : Bytes
node_a = 97 ∷ []

abbrev pub node_b : Bytes
node_b = 98 ∷ []

hash_known : hash64 0 ≡ 0xE220A8397B1DCDAF
unfolding hash64
hash_known = refl

abbrev pub grown_points : List Point
grown_points = ring_points 0 (node_a ∷ (node_b ∷ []))

-- No point of another node than `k` is as near to `pos` as `d`.
near_is : ℕ → ℕ → ℕ → List Point → Bool
near_is pos d k [] = true
near_is pos d k ((p, i) ∷ points) =
    let rest = near_is pos d k points in if leb (clockwise pos p) d then i == k && rest else rest

near_is_sound :
    (pos d k : ℕ) (points : List Point) (p : Point)
    → near_is pos d k points ≡ true
    → Mem p points
    → clockwise pos p.0 ≤ d
    → p.1 ≡ k
unfolding near_is
near_is_sound pos d k [] p e m h = elim m [ ]
near_is_sound pos d k ((p', i) ∷ points) p e (inl s) h =
    let a : p' ≡ p.0 = ap (λ (x : Point). x.0) s in
    let b : i ≡ p.1 = ap (λ (x : Point). x.1) s in ground (arith, rw (a, b) at e)
near_is_sound pos d k ((p', i) ∷ points) p e (inr m) h =
    near_is_sound pos d k points p (ground arith) m h

-- Some point is as near.
some_near : ℕ → ℕ → List Point → Bool
some_near pos d [] = false
some_near pos d ((p, i) ∷ points) = leb (clockwise pos p) d || some_near pos d points

some_near_sound :
    (pos d : ℕ) (points : List Point)
    → some_near pos d points ≡ true
    → (p : Point) × Mem p points × (clockwise pos p.0 ≤ d)
unfolding some_near
some_near_sound pos d [] e = cc
some_near_sound pos d ((q, i) ∷ points) e = elim (Bool-cases (leb (clockwise pos q) d)) [
  | inl near ↦ ((q, i), inl refl, leb→le (clockwise pos q) d near)
  | inr far ↦ let (p, m, h) = some_near_sound pos d points (ground arith) in (p, inr m, h)
]

near_enough :
    (v d k : ℕ)
    → some_near (hash64 v) d grown_points ≡ true
    → near_is (hash64 v) d k grown_points ≡ true
    → IsSettled (node_a ∷ (node_b ∷ [])) v
near_enough v d k e f p q n m =
    let (t, t_here, near) = some_near_sound (hash64 v) d grown_points e in
    near_is_sound (hash64 v) d k grown_points p f n.here (omega (arith, n.least t t_here))
    ∙ sym (near_is_sound (hash64 v) d k grown_points q f m.here (omega (arith, m.least t t_here)))

abbrev pub old : ShardRouter
old = record {
  virtual_shards = 2;
  nodes = node_a ∷ [];
  ring = insertion.sort_unstable_by_key (ring_points 0 (node_a ∷ []));
}

abbrev pub grown : ShardRouter
grown = record {
  virtual_shards = 2;
  nodes = node_a ∷ (node_b ∷ []);
  ring = insertion.sort_unstable_by_key grown_points;
}

-- The node that owns a shard, from a point that is near enough.
owner_by :
    (v d k : ℕ)
    → some_near (hash64 v) d grown_points ≡ true
    → near_is (hash64 v) d k grown_points ≡ true
    → node_of_virtual_shard insertion grown v ≡ ok k
unfolding new
owner_by v d k e f =
    let (t, t_here, near) = some_near_sound (hash64 v) d grown_points e in
    let (p, owned, n) =
      node_of_virtual_shard-IsNext insertion 2 (node_a ∷ (node_b ∷ [])) grown refl v in
    owned
    ∙ ap ok (near_is_sound (hash64 v) d k grown_points p f n.here (omega (arith, n.least t t_here)))

pub owner_0 : node_of_virtual_shard insertion grown 0 ≡ ok 1
unfolding clockwise some_near ring_points node_points hash64 hash_str near_is
owner_0 = owner_by 0 14852336468173894 1 refl refl

pub owner_1 : node_of_virtual_shard insertion grown 1 ≡ ok 0
unfolding clockwise some_near ring_points node_points hash64 hash_str near_is
owner_1 = owner_by 1 19230506872097134 0 refl refl

pub old_owner : (v : ℕ) → node_of_virtual_shard insertion old v ≡ ok 0
unfolding new
old_owner v =
    let (p, owned, n) = node_of_virtual_shard-IsNext insertion 2 (node_a ∷ []) old refl v in
    let only : p.1 ≡ 0 = omega (arith, ring_points-Belongs 0 (node_a ∷ []) p n.here) in
    owned ∙ ap ok only

first-IsSettled : IsSettled (node_a ∷ (node_b ∷ [])) 0
unfolding clockwise some_near ring_points node_points hash64 hash_str near_is
first-IsSettled = near_enough 0 14852336468173894 1 refl refl

second-IsSettled : IsSettled (node_a ∷ (node_b ∷ [])) 1
unfolding clockwise some_near ring_points node_points hash64 hash_str near_is
second-IsSettled = near_enough 1 19230506872097134 0 refl refl

pub settled : (v : ℕ) → v < 2 → IsSettled (node_a ∷ (node_b ∷ [])) v
settled zero h = first-IsSettled
settled (suc zero) h = second-IsSettled
settled (suc (suc v)) h = absurd (omega arith)

new-old : new insertion 2 (node_a ∷ []) ≡ ok old
unfolding new
new-old = refl

new-grown : new insertion 2 (node_a ∷ (node_b ∷ [])) ≡ ok grown
unfolding new
new-grown = refl

compute_moved_vshards_lem_example :
    (moved : List ℕ) × (compute_moved_vshards insertion (node_a ∷ []) (node_a ∷ (node_b ∷ [])) 2
      ≡ ok moved)
    × ((v : ℕ)
        → v < 2
        → (contains moved v ≡ true) × (node_of_virtual_shard insertion grown v ≡ ok 1)
          ⊎ (contains moved v ≡ false)
            × (node_of_virtual_shard insertion grown v ≡ node_of_virtual_shard insertion old v))
compute_moved_vshards_lem_example =
    compute_moved_vshards_lem insertion 2 (node_a ∷ []) node_b old grown new-old new-grown settled

node_of_virtual_shard-IsNext_example :
    (p : Point) × (node_of_virtual_shard insertion grown 7 ≡ ok p.1)
    × IsNext (ring_points 0 (node_a ∷ (node_b ∷ []))) (hash64 7) p
node_of_virtual_shard-IsNext_example =
    node_of_virtual_shard-IsNext insertion 2 (node_a ∷ (node_b ∷ [])) grown new-grown 7

abbrev joining : Migration
joining = new_migration "b" "127.0.0.1:2" "slave" (0 ∷ [])

shard_0_migrates : is_migrating joining 0 ≡ true
unfolding is_migrating new_migration
shard_0_migrates = refl

shard_1_stays : is_migrating joining 1 ≡ false
unfolding is_migrating new_migration
shard_1_stays = refl
