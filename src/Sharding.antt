-- ===== src/Sharding.antt =====
-- src/sharding.rs: the two levels of routing, from a document to a virtual shard and from that to
-- the node that follows its hash on the ring of virtual points. A panic is a `Result`.
pub mod Slice
pub mod Insertion
pub mod Points
pub mod Clockwise
pub mod Names
pub mod Reshard
use Prim.Native.Nat.{bit_xor}
use shanshui_cunji.Prelude.{
  ℕ, zero, suc, ◌+◌, ◌*◌, ◌/◌, ◌%◌, ◌^◌, List, [], ◌∷◌, ◌++◌, Option, none, some, length, get_elem?,
  Bool, true, false, ◌==◌,
}
use shanshui_cunji.Bytes.{Bytes}
use shanshui_cunji.Errors.{Result, ok, panic, ◌>>=◌, ◌>>◌}
use shanshui_cunji.Sharding.Slice.{Point, Search, found, missing, SliceMethods}

abbrev pub vnodes_per_node : ℕ
vnodes_per_node = 128

abbrev pub golden : ℕ
golden = 0x9E3779B97F4A7C15

unfoldable pub hash64 : ℕ → ℕ
hash64 x =
    let a = (x + golden) % 2 ^ 64 in
    let b = bit_xor a (a / 2 ^ 30) * 0xBF58476D1CE4E5B9 % 2 ^ 64 in
    let c = bit_xor b (b / 2 ^ 27) * 0x94D049BB133111EB % 2 ^ 64 in bit_xor c (c / 2 ^ 31)

unfoldable pub hash_bytes : ℕ → Bytes → ℕ
hash_bytes h [] = h
hash_bytes h (b ∷ bs) = hash_bytes (bit_xor h b * 0x100000001B3 % 2 ^ 64) bs

-- The hash of a name that is given by its bytes.
unfoldable pub hash_str : Bytes → ℕ
unfolding hash_bytes
hash_str s = hash_bytes 0xCBF29CE484222325 s

pub record ShardRouter : Type 0 where
  pub virtual_shards : ℕ
  pub nodes : List Bytes
  pub ring : List Point

-- The points that node `i` has for the numbers from `v` on.
unfoldable pub node_points : (i seed v count : ℕ) → List Point
node_points i seed v zero = []
node_points i seed v (suc count) =
    (hash64 ((seed + v * golden % 2 ^ 64) % 2 ^ 64), i) ∷ node_points i seed (suc v) count

-- The points of all nodes, the first of which has index `i`.
unfoldable pub ring_points : ℕ → List Bytes → List Point
ring_points i [] = []
ring_points i (n ∷ ns) = node_points i (hash_str n) 0 vnodes_per_node ++ ring_points (suc i) ns

module _ (slice : SliceMethods) where
  unfoldable pub new : ℕ → List Bytes → Result ShardRouter
  new virtual_shards [] = panic
  new virtual_shards (n ∷ ns) = ok (record {
    virtual_shards = virtual_shards;
    nodes = n ∷ ns;
    ring = slice.sort_unstable_by_key (ring_points 0 (n ∷ ns));
  })

unfoldable pub node_count : ShardRouter → ℕ
node_count r = length r.nodes

abbrev pub or_panic {ℓ} : {A : Type ℓ} → Option A → Result A
or_panic none = panic
or_panic (some a) = ok a

abbrev pub index {ℓ} : {A : Type ℓ} → List A → ℕ → Result A
index xs i = or_panic (get_elem? xs i)

unfoldable pub node_id : ShardRouter → ℕ → Result Bytes
node_id r idx = index r.nodes idx

-- `%` by zero panics.
abbrev pub rem : ℕ → ℕ → Result ℕ
rem a zero = panic
rem a (suc b) = ok (a % suc b)

unfoldable pub virtual_shard_of : ShardRouter → ℕ → Result ℕ
virtual_shard_of r docid = rem (hash64 docid) r.virtual_shards

-- The point that the outcome of the search stands for.
unfoldable pub owner : List Point → Search → Result Point
owner ring (found i) = index ring i
owner ring (missing i) = rem i (length ring) >>= λ j. index ring j

module _ (slice : SliceMethods) where
  unfoldable pub node_of_virtual_shard : ShardRouter → ℕ → Result ℕ
  unfolding owner
  node_of_virtual_shard r vshard =
      owner r.ring (slice.binary_search_by_key r.ring (hash64 vshard)) >>= λ p. ok p.1

  unfoldable pub route : ShardRouter → ℕ → Result ℕ
  unfolding node_of_virtual_shard virtual_shard_of
  route r docid = virtual_shard_of r docid >>= λ v. node_of_virtual_shard r v

  unfoldable pub route_node : ShardRouter → ℕ → Result Bytes
  unfolding route node_id
  route_node r docid = route r docid >>= λ i. node_id r i
