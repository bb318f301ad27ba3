-- ===== src/Meta/Router.antt =====
-- src/meta.rs: routing over the registered nodes. The bytes of a node's name are an argument.
use Prim.Native.String.{String}
use shanshui_cunji.Prelude.{
  ℕ, Bool, true, false, Option, none, some, List, [], ◌∷◌, if◌then◌else◌, map, get_elem?,
}
use shanshui_cunji.Bytes.{Bytes}
use shanshui_cunji.Errors.{Result, ok, ◌>>=◌}
use shanshui_cunji.Sharding.Slice.{SliceMethods}
use shanshui_cunji.Sharding.{ShardRouter, new, route, node_of_virtual_shard}
use shanshui_cunji.Meta.{NodeInfo, MetaCenter}

abbrev pub is_empty : List NodeInfo → Bool
is_empty [] = true
is_empty (n ∷ ns) = false

unfoldable pub broadcast_targets : MetaCenter → List NodeInfo
broadcast_targets m = m.nodes

module _ (slice : SliceMethods) (name_bytes : String → Bytes) where
  unfoldable pub router : MetaCenter → Result ShardRouter
  router m = new slice m.virtual_shards (map (λ n. name_bytes n.node_id) m.nodes)

  unfoldable pub resolve : MetaCenter → ℕ → Result (Option NodeInfo)
  unfolding router
  resolve m docid =
      if is_empty m.nodes
      then ok none
      else router m >>= λ r. route slice r docid >>= λ idx. ok (get_elem? m.nodes idx)

  unfoldable pub index_of_virtual_shard : MetaCenter → ℕ → Result (Option ℕ)
  unfolding router
  index_of_virtual_shard m vshard =
      if is_empty m.nodes
      then ok none
      else router m >>= λ r. node_of_virtual_shard slice r vshard >>= λ idx. ok (some idx)
