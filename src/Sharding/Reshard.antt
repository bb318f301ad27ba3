-- ===== src/Sharding/Reshard.antt =====
-- src/reshard.rs: the virtual shards that a new node takes over, and the state of a migration.
pub mod Moved
use Prim.Native.String.{String}
use shanshui_cunji.Prelude.{
  ℕ, zero, suc, List, [], ◌∷◌, Bool, true, ◌&&◌, ◌==◌, if◌then◌else◌, contains,
}
use shanshui_cunji.Bytes.{Bytes}
use shanshui_cunji.Errors.{Result, ok, ◌>>=◌}
use shanshui_cunji.Sharding.Slice.{SliceMethods}
use shanshui_cunji.Sharding.{ShardRouter, new, node_of_virtual_shard}

module _ (slice : SliceMethods) where
  -- `for v in ..` from `v` on. The set is a list without repetitions.
  unfoldable pub moved_from : (old grown : ShardRouter) (v count : ℕ) → Result (List ℕ)
  moved_from old grown v zero = ok []
  moved_from old grown v (suc count) = do
    let rest = moved_from old grown (suc v) count
    before ← node_of_virtual_shard slice old v
    after ← node_of_virtual_shard slice grown v
    moved ← rest
    ok (if before == after then moved else v ∷ moved)

  unfoldable pub compute_moved_vshards :
      (old_nodes new_nodes : List Bytes) (virtual_shards : ℕ) → Result (List ℕ)
  unfolding moved_from
  compute_moved_vshards old_nodes new_nodes virtual_shards = do
    old ← new slice virtual_shards old_nodes
    grown ← new slice virtual_shards new_nodes
    moved_from old grown 0 virtual_shards

pub record Migration : Type 0 where
  pub new_node : String
  pub new_addr : String
  pub new_role : String
  pub moved_vshards : List ℕ
  pub shadow : Bool

unfoldable pub new_migration : String → String → String → List ℕ → Migration
new_migration new_node new_addr new_role moved_vshards = record {
  new_node = new_node;
  new_addr = new_addr;
  new_role = new_role;
  moved_vshards = moved_vshards;
  shadow = true;
}

unfoldable pub is_migrating : Migration → ℕ → Bool
is_migrating m vshard = m.shadow && contains m.moved_vshards vshard
