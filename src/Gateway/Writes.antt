-- ===== src/Gateway/Writes.antt =====
-- What a write through the gateway does to the nodes while a migration is under way.
use Prim.Native.String.{String}
use shanshui_cunji.Prelude.{
  ℕ, ◌%◌, ◌<◌, ◌≡◌, refl, sym, ap, Bool, true, ◌&&◌, Option, some, if◌then◌else◌, ◌==◌, contains,
  inl, inr, Bool-cases,
}
use shanshui_cunji.Prelude.Texts.{same_text}
use shanshui_cunji.Bytes.{Bytes}
use shanshui_cunji.Errors.{Result, ok}
use shanshui_cunji.Meta.{NodeInfo, MetaCenter}
use shanshui_cunji.Sharding.Slice.{SliceMethods}
use shanshui_cunji.Sharding.{hash64}
use shanshui_cunji.Sharding.Reshard.{Migration, is_migrating}
use shanshui_cunji.Sharding.Clockwise.{rem_pos}
use shanshui_cunji.Gateway.Endpoint.{ShardEndpoint, Document, and_then, and_then-ok}
use shanshui_cunji.Gateway.{
  Gateway, in_gateway, virtual_shard_of, shadow_put, put_to, route_node, put,
}

-- The documents after a write.
abbrev pub write : (ℕ → Option String) → Document → ℕ → Option String
write s d key = if d.docid == key then some d.json else s key

-- The virtual shard of a document, where there are shards.
abbrev pub shard : MetaCenter → ℕ → ℕ
shard meta docid = hash64 docid % meta.virtual_shards

pub virtual_shard_of-ok :
    (meta : MetaCenter) (docid : ℕ)
    → 0 < meta.virtual_shards
    → virtual_shard_of meta docid ≡ ok (shard meta docid)
unfolding virtual_shard_of
virtual_shard_of-ok meta docid pos = rem_pos (hash64 docid) meta.virtual_shards pos

module _ {E : Type 0} (calls : ShardEndpoint E) (meta : MetaCenter) (m : Migration) where
  -- Is the document `d` what the new node is asked for, and on the way there?
  abbrev pub lands : Document → String → ℕ → Bool
  lands d asked key =
      contains m.moved_vshards (shard meta d.docid)
      && (same_text m.new_node asked && (d.docid == key))

  shadow_put-get :
      (d : Document) (e e' : E) (asked : String) (key : ℕ)
      → 0 < meta.virtual_shards
      → m.shadow ≡ true
      → shadow_put calls meta (some m) d e ≡ (ok tt, e')
      → calls.get e' asked key
        ≡ (if lands d asked key then ok (some d.json) else calls.get e asked key)
  unfolding shadow_put is_migrating
  shadow_put-get d e e' asked key pos live h =
      let h' = rw (virtual_shard_of-ok meta d.docid pos, live) at h in
      elim (Bool-cases (contains m.moved_vshards (shard meta d.docid))) [
        | inl moved ↦ rw (calls.get-put e e' m.new_node asked d key (rw moved at h'), moved) refl
        | inr stays ↦
            let same : e ≡ e' = ap (λ (x : Result (Unit {0}) × E). x.1) (rw stays at h') in
            rw (← same, stays) refl
      ]

  put_to-get :
      (d : Document) (n : NodeInfo) (e e' : E) (name asked : String) (key : ℕ)
      → 0 < meta.virtual_shards
      → m.shadow ≡ true
      → put_to calls meta (some m) d n e ≡ (ok name, e')
      → calls.get e' asked key ≡ (
          if lands d asked key
          then ok (some d.json)
          else if same_text n.node_id asked && (d.docid == key)
          then ok (some d.json)
          else calls.get e asked key)
  unfolding put_to
  put_to-get d n e e' name asked key pos live h =
      let (u, e1, home, h1) =
        and_then-ok (calls.put e n.node_id d)
          (λ u e1. and_then (shadow_put calls meta (some m) d e1) (λ v e2. (ok n.node_id, e2))) h in
      let (v, e2, new', h2) =
        and_then-ok (shadow_put calls meta (some m) d e1) (λ v e2. (ok n.node_id, e2)) h1 in
      let same : e2 ≡ e' = ap (λ (x : Result String × E). x.1) h2 in
      rw
        (
          ← same,
          shadow_put-get d e1 e2 asked key pos live new',
          calls.get-put e e1 n.node_id asked d key home,
        )
        refl

-- What an endpoint call in the gateway returned, and what it left.
pub in_gateway-ok :
    {E X : Type 0} (g g' : Gateway E) (call : Result X × E) {x : X}
    → in_gateway g call ≡ (ok x, g')
    → (call ≡ (ok x, g'.endpoint)) × (g'.meta ≡ g.meta) × (g'.migration ≡ g.migration)
in_gateway-ok {E = E} {X = X} g g' (r, e) h =
    let state : record g { endpoint = e } ≡ g' = ap (λ (p : Result X × Gateway E). p.1) h in
    (
      λ i. ((h i).0, (h i).1.endpoint),
      ap (λ (s : Gateway E). s.meta) (sym state),
      ap (λ (s : Gateway E). s.migration) (sym state),
    )

module _ {E : Type 0} (slice : SliceMethods) (name_bytes : String → Bytes)
    (calls : ShardEndpoint E) where
  -- A write that returned `Ok` reached the node that the document is routed to, and the new node if the
  -- document's shard is on the way there; nothing else changed.
  pub put-get :
      (g g' : Gateway E) (m : Migration) (d : Document) (name : String)
      → 0 < g.meta.virtual_shards
      → m.shadow ≡ true
      → g.migration ≡ some m
      → put slice name_bytes calls g d ≡ (ok name, g')
      → (n : NodeInfo) × (route_node slice name_bytes g.meta d.docid ≡ ok n)
        × (g'.meta ≡ g.meta)
        × (g'.migration ≡ g.migration)
        × ((asked : String) (key : ℕ)
            → calls.get g'.endpoint asked key ≡ (
                if lands calls g.meta m d asked key
                then ok (some d.json)
                else if same_text n.node_id asked && (d.docid == key)
                then ok (some d.json)
                else calls.get g.endpoint asked key))
  unfolding put
  put-get g g' m d name pos live mig h =
      let (called, meta_same, mig_same) =
        in_gateway-ok g g'
          (and_then (route_node slice name_bytes g.meta d.docid, g.endpoint)
            (λ node e. put_to calls g.meta g.migration d node e))
          h in
      let (n, e0, routed, h1) =
        and_then-ok (route_node slice name_bytes g.meta d.docid, g.endpoint)
          (λ node e. put_to calls g.meta g.migration d node e) called in
      let same : g.endpoint ≡ e0 = ap (λ (x : Result NodeInfo × E). x.1) routed in
      (
        n,
        ap (λ (x : Result NodeInfo × E). x.0) routed,
        meta_same,
        mig_same,
        λ asked key.
            put_to-get calls g.meta m d n g.endpoint g'.endpoint name asked key pos live
              (rw (← same, mig) at h1),
      )
