-- ===== src/Gateway.antt =====
-- src/gateway.rs: writing, reading and moving shards to a new node, over an endpoint that reaches the
-- nodes. The term cache is off. What catching up reads as the terms of a document is an argument.
pub mod Endpoint
pub mod Owners
pub mod Registered
pub mod Switch
pub mod Writes
pub mod Keeps
pub mod CatchUp
pub mod Run
pub mod Lossless
pub mod Batch
pub mod Local
use Prim.Native.String.{String}
use text.Mathlib.Text.{◌==◌}
use shanshui_cunji.Prelude.{
  ℕ, ◌+◌, Bool, true, false, not, Option, none, some, List, [], ◌∷◌, ◌++◌, if◌then◌else◌, map,
  length, is_some, contains, retain,
}
use shanshui_cunji.Prelude.Texts.{has_text, TextMap, text_get, text_put}
use shanshui_cunji.Bytes.{Bytes}
use shanshui_cunji.Errors.{Result, ok, err, panic, cluster, ◌>>=◌}
use shanshui_cunji.Meta.{NodeInfo, MetaCenter, register, node_ids}
use shanshui_cunji.Meta.Router.{resolve, broadcast_targets}
use shanshui_cunji.Sharding.Slice.{SliceMethods}
use shanshui_cunji.Sharding.{hash64, rem}
use shanshui_cunji.Sharding.Reshard.{Migration, compute_moved_vshards, new_migration, is_migrating}
use shanshui_cunji.Gateway.Endpoint.{ShardEndpoint, Document, and_then, is_ok}

pub record Gateway (E : Type 0) : Type 0 where
  pub meta : MetaCenter
  pub endpoint : E
  pub migration : Option Migration

unfoldable pub new_gateway : {E : Type 0} → MetaCenter → E → Gateway E
new_gateway meta endpoint = record { meta = meta; endpoint = endpoint; migration = none }

-- The result of a call of the endpoint, in the gateway.
abbrev pub in_gateway : {E X : Type 0} → Gateway E → Result X × E → Result X × Gateway E
in_gateway g (r, e) = (r, record g { endpoint = e })

unfoldable pub virtual_shard_of : MetaCenter → ℕ → Result ℕ
virtual_shard_of meta docid = rem (hash64 docid) meta.virtual_shards

-- The document is written to the new node too if its shard is on the way there.
unfoldable pub shadow_put :
    {E : Type 0}
    → ShardEndpoint E
    → MetaCenter
    → Option Migration
    → Document
    → E
    → Result (Unit {0}) × E
unfolding virtual_shard_of
shadow_put calls meta none d e = (ok tt, e)
shadow_put calls meta (some m) d e =
    and_then (virtual_shard_of meta d.docid, e)
      (λ vs e1. if is_migrating m vs then calls.put e1 m.new_node d else (ok tt, e1))

unfoldable pub put_to :
    {E : Type 0}
    → ShardEndpoint E
    → MetaCenter
    → Option Migration
    → Document
    → NodeInfo
    → E
    → Result String × E
unfolding shadow_put
put_to calls meta migration d node e =
    and_then (calls.put e node.node_id d)
      (λ u e1. and_then (shadow_put calls meta migration d e1) (λ v e2. (ok node.node_id, e2)))

abbrev pub some_node : Option NodeInfo → Result NodeInfo
some_node none = err cluster
some_node (some n) = ok n

-- The documents of a batch by the node that they go to.
abbrev pub known : Option (List Document) → List Document
known none = []
known (some ds) = ds

module _ {E : Type 0} (calls : ShardEndpoint E) where
  -- The order in which a hash map gives its groups is left open there; here it is that of the batch.
  unfoldable pub put_groups : TextMap (List Document) → TextMap ℕ → E → Result (TextMap ℕ) × E
  put_groups [] out e = (ok out, e)
  put_groups ((node, batch) ∷ groups) out e =
      and_then (calls.put_batch e node batch)
        (λ u e1. put_groups groups (text_put node (length batch) out) e1)

  unfoldable pub ping_all : Gateway E → List String
  ping_all g =
      retain (λ n. not (is_ok (calls.ping g.endpoint n)))
        (map (λ n. n.node_id) (broadcast_targets g.meta))

-- The new node is reachable from here on, but not registered.
unfoldable pub start_migration :
    {E : Type 0}
    → ShardEndpoint E
    → (new_node new_addr new_role : String) → List ℕ
    → Gateway E
    → Result ℕ × Gateway E
start_migration calls new_node new_addr new_role moved g =
    and_then (in_gateway g (calls.add_node g.endpoint new_node (some new_addr))) (λ u g1. (
      ok (length moved),
      record g1 { migration = some (new_migration new_node new_addr new_role moved) },
    ))

module _ (slice : SliceMethods) (name_bytes : String → Bytes) where
  unfoldable pub route_node : MetaCenter → ℕ → Result NodeInfo
  route_node meta docid = resolve slice name_bytes meta docid >>= λ n. some_node n

  unfoldable pub group :
      MetaCenter → List Document → TextMap (List Document) → Result (TextMap (List Document))
  unfolding route_node
  group meta [] groups = ok groups
  group meta (d ∷ ds) groups = route_node meta d.docid >>= λ node.
      group meta ds
        (text_put node.node_id (known (text_get node.node_id groups) ++ (d ∷ [])) groups)

module _ {E : Type 0} (slice : SliceMethods) (name_bytes : String → Bytes)
    (calls : ShardEndpoint E) where
  unfoldable pub put : Gateway E → Document → Result String × Gateway E
  unfolding route_node put_to
  put g d = in_gateway g (
      and_then (route_node slice name_bytes g.meta d.docid, g.endpoint)
        (λ node e. put_to calls g.meta g.migration d node e))

  unfoldable pub put_batch : Gateway E → List Document → Result (TextMap ℕ) × Gateway E
  unfolding group put_groups
  put_batch g items = in_gateway g (
      and_then (group slice name_bytes g.meta items [], g.endpoint)
        (λ groups e. put_groups calls groups [] e))

  unfoldable pub get : Gateway E → ℕ → Result (Option String)
  unfolding route_node
  get g docid =
      route_node slice name_bytes g.meta docid >>= λ node. calls.get g.endpoint node.node_id docid

  unfoldable pub begin_migration : String → String → String → Gateway E → Result ℕ × Gateway E
  unfolding start_migration
  begin_migration new_node new_addr new_role g =
      let old_nodes = node_ids g.meta in
      if is_some g.migration
      then (err cluster, g)
      else if has_text new_node old_nodes
      then (err cluster, g)
      else and_then
          (
            compute_moved_vshards slice (map name_bytes old_nodes)
                (map name_bytes (old_nodes ++ (new_node ∷ []))) g.meta.virtual_shards,
            g,
          )
          (λ moved g0. start_migration calls new_node new_addr new_role moved g0)

-- What catching up does to an endpoint.
module _ {E : Type 0} (calls : ShardEndpoint E) (extract_terms : String → List String) where
  -- The number of documents copied is the result.
  unfoldable pub copy_row : MetaCenter → Migration → ℕ × String → E → Result ℕ × E
  copy_row meta m (docid, json) e =
      and_then (virtual_shard_of meta docid, e)
        (λ vs e1.
          if contains m.moved_vshards vs
          then and_then
              (calls.put e1 m.new_node
                (record { docid = docid; json = json; terms = extract_terms json }))
              (λ u e2. (ok 1, e2))
          else (ok 0, e1))

  unfoldable pub copy_rows : MetaCenter → Migration → List (ℕ × String) → ℕ → E → Result ℕ × E
  unfolding copy_row
  copy_rows meta m [] copied e = (ok copied, e)
  copy_rows meta m (row ∷ rows) copied e =
      and_then (copy_row meta m row e) (λ n e1. copy_rows meta m rows (copied + n) e1)

  unfoldable pub copy_node : MetaCenter → Migration → String → ℕ → E → Result ℕ × E
  unfolding copy_rows
  copy_node meta m node_id copied e =
      if node_id == m.new_node
      then (ok copied, e)
      else and_then (calls.scan_all e node_id, e) (λ rows e1. copy_rows meta m rows copied e1)

  unfoldable pub copy_nodes : MetaCenter → Migration → List NodeInfo → ℕ → E → Result ℕ × E
  unfolding copy_node
  copy_nodes meta m [] copied e = (ok copied, e)
  copy_nodes meta m (old ∷ olds) copied e =
      and_then (copy_node meta m old.node_id copied e) (λ n e1. copy_nodes meta m olds n e1)

  unfoldable pub catch_up_to : Option Migration → Gateway E → Result ℕ × Gateway E
  unfolding copy_nodes
  catch_up_to none g = (err cluster, g)
  catch_up_to (some m) g =
      in_gateway g (copy_nodes g.meta m (broadcast_targets g.meta) 0 g.endpoint)

  unfoldable pub catch_up : Gateway E → Result ℕ × Gateway E
  unfolding catch_up_to
  catch_up g = catch_up_to g.migration g

unfoldable pub commit_to : {E : Type 0} → Option Migration → Gateway E → Result ℕ × Gateway E
commit_to none g = (err cluster, g)
commit_to (some m) g =
    let (registered, meta) = register g.meta m.new_node m.new_addr m.new_role in
    and_then (registered, record g { meta = meta })
      (λ u g1. (ok (length m.moved_vshards), record g1 { migration = none }))

unfoldable pub commit_migration : {E : Type 0} → Gateway E → Result ℕ × Gateway E
unfolding commit_to
commit_migration g = commit_to g.migration g

unfoldable pub abort_migration : {E : Type 0} → Gateway E → Gateway E
abort_migration g = record g { migration = none }
