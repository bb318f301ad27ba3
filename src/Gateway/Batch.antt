-- ===== src/Gateway/Batch.antt =====
-- A batch of writes goes to the registered nodes only, also while a migration is under way.
use Prim.Native.String.{String}
use text.Mathlib.TextEquality.{eq_iff}
use shanshui_cunji.Prelude.{
  ℕ, ◌<◌, ◌≡◌, refl, sym, ap, ◌∙◌, List, [], ◌∷◌, ◌++◌, true, false, Option, some, map, length,
  length-map, contains, All, arith, inl, inr, Bool-cases,
}
use shanshui_cunji.Prelude.Texts.{has_text, same_text, TextMap, text_get, text_put}
use shanshui_cunji.Bytes.{Bytes}
use shanshui_cunji.Errors.{Result, ok, err, panic, ◌>>=◌}
use shanshui_cunji.Meta.{NodeInfo, MetaCenter, node_ids}
use shanshui_cunji.Sharding.Slice.{SliceMethods}
use shanshui_cunji.Sharding.Reshard.{new_migration, compute_moved_vshards}
use shanshui_cunji.Sharding.Reshard.Moved.{IsSettled}
use shanshui_cunji.Gateway.Endpoint.{ShardEndpoint, Document, and_then, and_then-ok}
use shanshui_cunji.Gateway.{
  Gateway, route_node, group, known, put_groups, put_batch, get, commit_migration,
}
use shanshui_cunji.Gateway.Owners.{route_node-IsHome}
use shanshui_cunji.Gateway.Registered.{other_names}
use shanshui_cunji.Gateway.Switch.{ok_same, route_moved}
use shanshui_cunji.Gateway.Writes.{shard, in_gateway-ok}
use shanshui_cunji.Gateway.Run.{commit_migration-ok}

-- None of the groups is for the node of this name.
abbrev Spared : String → TextMap (List Document) → Type 0
Spared node groups = All (λ p. same_text node p.0 ≡ false) groups

text_put-Spared :
    (node key : String) (ds : List Document) (groups : TextMap (List Document))
    → same_text node key ≡ false
    → Spared node groups
    → Spared node (text_put key ds groups)
unfolding text_put
text_put-Spared node key ds [] ne all = (ne, tt)
text_put-Spared node key ds ((k, v) ∷ groups) ne (one, all) = elim (Bool-cases (same_text k key)) [
  | inl e ↦ rw e (one, all)
  | inr e ↦ rw e (one, text_put-Spared node key ds groups ne all)
]

-- The first call of a chain that returned `Ok` did so too.
bind-ok :
    {X Y : Type 0} (r : Result X) (f : X → Result Y) {y : Y}
    → (r >>= f) ≡ ok y
    → (x : X) × (r ≡ ok x) × (f x ≡ ok y)
bind-ok (ok x) f h = (x, refl, h)
bind-ok (err e) f h = cc
bind-ok panic f h = cc

module _ (slice : SliceMethods) (name_bytes : String → Bytes) (meta : MetaCenter)
    (node : String) where
  group-Spared :
      ((key : ℕ) (n : NodeInfo)
        → route_node slice name_bytes meta key ≡ ok n
        → same_text node n.node_id ≡ false)
      → (items : List Document) (groups groups' : TextMap (List Document)) → Spared node groups
      → group slice name_bytes meta items groups ≡ ok groups'
      → Spared node groups'
  unfolding group
  group-Spared apart [] groups groups' all h = let same : groups ≡ groups' = cc in rw same at all
  group-Spared apart (d ∷ ds) groups groups' all h =
      let (n, routed, h1) =
        bind-ok (route_node slice name_bytes meta d.docid)
          (λ n.
            group slice name_bytes meta ds
              (text_put n.node_id (known (text_get n.node_id groups) ++ (d ∷ [])) groups))
          h in
      group-Spared apart ds
        (text_put n.node_id (known (text_get n.node_id groups) ++ (d ∷ [])) groups) groups'
        (text_put-Spared node n.node_id _ groups (apart d.docid n routed) all) h1

put_groups_spare :
    {E : Type 0} (calls : ShardEndpoint E) (node : String) (key : ℕ)
    (groups : TextMap (List Document)) (out out' : TextMap ℕ) (e e' : E)
    → Spared node groups
    → put_groups calls groups out e ≡ (ok out', e')
    → calls.get e' node key ≡ calls.get e node key
unfolding put_groups
put_groups_spare {E = E} calls node key [] out out' e e' all h =
    ap (λ (x : E). calls.get x node key) (sym (ap (λ (x : Result (TextMap ℕ) × E). x.1) h))
put_groups_spare calls node key ((name, batch) ∷ groups) out out' e e' (one, all) h =
    let (u, e1, called, h1) =
      and_then-ok (calls.put_batch e name batch)
        (λ u e1. put_groups calls groups (text_put name (length batch) out) e1) h in
    let apart : same_text name node ≡ false = ground (arith, eq_iff name node, eq_iff node name) in
    put_groups_spare calls node key groups (text_put name (length batch) out) out' e1 e' all h1
    ∙ calls.get-put_batch e e1 name node batch key called apart

module _ {E : Type 0} (slice : SliceMethods) (name_bytes : String → Bytes) (calls : ShardEndpoint E)
    (node addr role : String) (g g1 g2 : Gateway E) (moved : List ℕ) (key : ℕ) (old : Option String)
    (items : List Document) (out : TextMap ℕ) (n : ℕ) where
  -- A batch that is written while a migration is under way is lost for the moved shards: when the
  -- migration is committed after it, a document of a moved shard is read as the new node had it before
  -- the batch, although the batch returned `Ok`, whatever it wrote. The conditions are those of a
  -- migration that was begun, with names that differ and settled shards.
  pub put_batch_lost :
      ((a b : String) → name_bytes a ≡ name_bytes b → a ≡ b)
      → 0 < length g.meta.nodes
      → 0 < g.meta.virtual_shards
      → ((v : ℕ)
          → v < g.meta.virtual_shards
          → IsSettled (map (λ x. name_bytes x.node_id) g.meta.nodes ++ (name_bytes node ∷ [])) v)
      → has_text node (node_ids g.meta) ≡ false
      → compute_moved_vshards slice
          (map name_bytes (node_ids g.meta))
          (map name_bytes (node_ids g.meta ++ (node ∷ [])))
          g.meta.virtual_shards
        ≡ ok moved
      → g.migration ≡ some (new_migration node addr role moved)
      → contains moved (shard g.meta key) ≡ true
      → calls.get g.endpoint node key ≡ ok old
      → put_batch slice name_bytes calls g items ≡ (ok out, g1)
      → commit_migration g1 ≡ (ok n, g2)
      → get slice name_bytes calls g2 key ≡ ok old
  unfolding put_batch get new_migration node_ids
  put_batch_lost injective some_nodes pos settled unknown computed mig listed held wrote done =
      let (called, meta_same, mig_same) =
        in_gateway-ok g g1
          (and_then (group slice name_bytes g.meta items [], g.endpoint)
            (λ groups e. put_groups calls groups [] e))
          wrote in
      let (groups, e0, grouped, h1) =
        and_then-ok (group slice name_bytes g.meta items [], g.endpoint)
          (λ groups e. put_groups calls groups [] e) called in
      let same : g.endpoint ≡ e0 = ap (λ (x : Result (TextMap (List Document)) × E). x.1) grouped in
      let apart = λ (k : ℕ) (x : NodeInfo) (r : route_node slice name_bytes g.meta k ≡ ok x).
        (let (x', r', home) = route_node-IsHome slice name_bytes g.meta k some_nodes pos in
          let same_node : x' ≡ x = ok_same r' r in
          other_names node g.meta.nodes x unknown (rw same_node at home.registered)) in
      let spared =
        group-Spared slice name_bytes g.meta node apart items [] groups tt
          (ap (λ (x : Result (TextMap (List Document)) × E). x.0) grouped) in
      let kept =
        put_groups_spare calls node key groups [] out g.endpoint g1.endpoint spared
          (rw (← same) at h1) in
      let (registered, endpoint_same) =
        commit_migration-ok g1 g2 (new_migration node addr role moved) n (mig_same ∙ mig) done in
      let (x, r, at_new) =
        route_moved slice name_bytes g.meta g2.meta node addr role moved injective
          (omega (arith, length-map (λ (y : NodeInfo). name_bytes y.node_id) g.meta.nodes)) pos
          unknown computed (rw meta_same at registered) settled key listed in
      rw (r, at_new, endpoint_same) (kept ∙ held)
