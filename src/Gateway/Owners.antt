-- ===== src/Gateway/Owners.antt =====
-- Which node a document is routed to.
use Prim.Native.String.{String}
use shanshui_cunji.Prelude.{
  ℕ, ◌%◌, ◌<◌, ◌≡◌, refl, sym, ◌∙◌, List, [], ◌∷◌, map, length, get_elem?-map, Mem, Mem-get_elem?,
  arith,
}
use shanshui_cunji.Bytes.{Bytes}
use shanshui_cunji.Errors.{Result, ok}
use shanshui_cunji.Meta.{NodeInfo, MetaCenter}
use shanshui_cunji.Meta.Router.{router, resolve}
use shanshui_cunji.Sharding.Slice.{SliceMethods}
use shanshui_cunji.Sharding.{ShardRouter, new, hash64, ring_points}
use shanshui_cunji.Sharding.Clockwise.{node_of_virtual_shard-IsNext, route_lem}
use shanshui_cunji.Sharding.Names.{IsOwner, IsNext-IsOwner}
use shanshui_cunji.Gateway.{route_node}

module _ (slice : SliceMethods) (name_bytes : String → Bytes) where
  abbrev pub names : List NodeInfo → List Bytes
  names nodes = map (λ n. name_bytes n.node_id) nodes

  -- `n` is registered, and its name owns the document's virtual shard.
  pub record IsHome (meta : MetaCenter) (docid : ℕ) (n : NodeInfo) : Type 0 where
    pub registered : Mem n meta.nodes
    pub place : ℕ
    pub owner :
        IsOwner
          (names meta.nodes)
          (hash64 (hash64 docid % meta.virtual_shards))
          place
          (name_bytes n.node_id)

  routed :
      (n0 : NodeInfo) (ns : List NodeInfo) (shards docid : ℕ)
      → 0 < shards
      → (n : NodeInfo) × (route_node slice name_bytes
            (record { nodes = n0 ∷ ns; virtual_shards = shards })
            docid
          ≡ ok n)
        × IsHome (record { nodes = n0 ∷ ns; virtual_shards = shards }) docid n
  unfolding route_node resolve router new map
  routed n0 ns shards docid pos =
      let r : ShardRouter = record {
        virtual_shards = shards;
        nodes = names (n0 ∷ ns);
        ring = slice.sort_unstable_by_key (ring_points 0 (names (n0 ∷ ns)));
      } in
      let made : new slice shards (names (n0 ∷ ns)) ≡ ok r = refl in
      let (i, name, shard, owned, routed_to, e, f) =
        route_lem slice shards (names (n0 ∷ ns)) r made docid pos in
      let (p, owned', next) =
        node_of_virtual_shard-IsNext slice shards (names (n0 ∷ ns)) r made
          (hash64 docid % shards) in
      let both : ◌≡◌ {A = Result ℕ} (ok i) (ok p.1) = sym owned ∙ owned' in
      let same : i ≡ p.1 = cc in
      let (name', e', owner) =
        IsNext-IsOwner (names (n0 ∷ ns)) (hash64 (hash64 docid % shards)) p next in
      let (n, here, bytes) =
        get_elem?-map (λ (x : NodeInfo). name_bytes x.node_id) (n0 ∷ ns) p.1 e' in
      (
        n,
        rw (routed_to, same, here) refl,
        record {
          registered = Mem-get_elem? (n0 ∷ ns) p.1 here;
          place = p.0;
          owner = rw bytes owner;
        },
      )

  -- In a cluster with nodes every document has a home, and is routed to it.
  pub route_node-IsHome :
      (meta : MetaCenter) (docid : ℕ)
      → 0 < length meta.nodes
      → 0 < meta.virtual_shards
      → (n : NodeInfo) × (route_node slice name_bytes meta docid ≡ ok n) × IsHome meta docid n
  route_node-IsHome meta docid some_nodes pos =
      (elim meta.nodes
          as (λ ns.
            meta.nodes ≡ ns
            → (n : NodeInfo) × (route_node slice name_bytes (record meta { nodes = ns }) docid
                ≡ ok n)
              × IsHome (record meta { nodes = ns }) docid n) [
                | [] ↦ λ e. absurd (omega (arith, rw e at some_nodes))
                | ◌∷◌ n ns ↦ λ e. routed n ns meta.virtual_shards docid pos
              ])
        refl
