-- ===== src/Gateway/Lossless.antt =====
-- A migration loses no document that is written with `put`.
use Prim.Native.String.{String}
use text.Mathlib.TextEquality.{eq_iff}
use shanshui_cunji.Prelude.{
  ℕ, ◌<◌, ◌≡◌, refl, sym, ap, ◌∙◌, List, [], ◌∷◌, ◌++◌, true, false, Option, none, some, map,
  length, length-map, Mem, arith, inl, inr, Bool-cases, Option-cases,
}
use shanshui_cunji.Prelude.Texts.{has_text, same_text}
use shanshui_cunji.Bytes.{Bytes}
use shanshui_cunji.Errors.{ok}
use shanshui_cunji.Meta.{NodeInfo, MetaCenter, node_ids, register}
use shanshui_cunji.Meta.Router.{broadcast_targets}
use shanshui_cunji.Sharding.Slice.{SliceMethods}
use shanshui_cunji.Sharding.Reshard.{Migration, new_migration, compute_moved_vshards}
use shanshui_cunji.Sharding.Reshard.Moved.{IsSettled}
use shanshui_cunji.Gateway.Endpoint.{ShardEndpoint, Document}
use shanshui_cunji.Gateway.{
  Gateway, route_node, get, begin_migration, catch_up, catch_up_to, copy_nodes, commit_migration,
}
use shanshui_cunji.Gateway.Owners.{route_node-IsHome}
use shanshui_cunji.Gateway.Registered.{other_names, registered_shards, still_nodes}
use shanshui_cunji.Gateway.Switch.{ok_same, home_after}
use shanshui_cunji.Gateway.Writes.{in_gateway-ok}
use shanshui_cunji.Gateway.Keeps.{
  Holds, HasCopy, IsCurrent, wrote-Holds, wrote-HasCopy, wrote-IsCurrent,
}
use shanshui_cunji.Gateway.CatchUp.{copy_nodes-Copied}
use shanshui_cunji.Gateway.Run.{
  writes, put_all, put_all_keeps, begin_migration-ok, commit_migration-ok,
}

none-some : {x : String} → none ≡ some x → ⊥
none-some h = cc

module _ {E : Type 0} (slice : SliceMethods) (name_bytes : String → Bytes) (calls : ShardEndpoint E)
    (extract_terms : String → List String) (meta : MetaCenter) (m : Migration)
    (some_nodes : 0 < length meta.nodes) (pos : 0 < meta.virtual_shards)
    (unknown : has_text m.new_node (node_ids meta) ≡ false) where
  is_registered :
      (key : ℕ) (n : NodeInfo) → route_node slice name_bytes meta key ≡ ok n → Mem n meta.nodes
  is_registered key n h =
      let (n', r, home) = route_node-IsHome slice name_bytes meta key some_nodes pos in
      let same : n' ≡ n = ok_same r h in rw same at home.registered

  unregistered : (n : NodeInfo) → Mem n meta.nodes → same_text m.new_node n.node_id ≡ false
  unfolding node_ids
  unregistered n h = other_names m.new_node meta.nodes n unknown h

  -- A node has no document of a number but the right one.
  right_rows :
      (e : E) (s : ℕ → Option String) (node : NodeInfo) (key : ℕ) (json : String)
      → Holds slice name_bytes calls meta e s
      → Mem node meta.nodes
      → calls.get e node.node_id key ≡ ok (some json)
      → s key ≡ some json
  right_rows e s node key json holds h g =
      let (n, r, home) = route_node-IsHome slice name_bytes meta key some_nodes pos in
      elim (Bool-cases (same_text n.node_id node.node_id)) [
        | inl here ↦
            let same : n.node_id ≡ node.node_id = (eq_iff n.node_id node.node_id).0 here in
            ok_same (rw same at (holds.home key n r)) g
        | inr away ↦ absurd (none-some (ok_same (holds.alone key n node r h away) g))
      ]

  -- After catching up the new node has all documents of the moved shards.
  catch_up-HasCopy :
      (g g' : Gateway E) (s : ℕ → Option String) (n : ℕ)
      → g.meta ≡ meta
      → g.migration ≡ some m
      → Holds slice name_bytes calls meta g.endpoint s
      → ((key : ℕ) → IsCurrent calls meta m g.endpoint s key)
      → catch_up calls extract_terms g ≡ (ok n, g')
      → (g'.meta ≡ meta)
        × (g'.migration ≡ some m)
        × Holds slice name_bytes calls meta g'.endpoint s
        × ((key : ℕ) → HasCopy calls meta m g'.endpoint s key)
  unfolding catch_up catch_up_to broadcast_targets
  catch_up-HasCopy g g' s n same mig holds current h =
      let h1 = ap (λ (o : Option Migration). catch_up_to calls extract_terms o g) (sym mig) ∙ h in
      let (copying, meta_same, mig_same) =
        in_gateway-ok g g' (copy_nodes calls extract_terms g.meta m g.meta.nodes 0 g.endpoint) h1 in
      let (copied, have) =
        copy_nodes-Copied calls extract_terms meta m pos s meta.nodes 0 n g.endpoint g'.endpoint
          unregistered (λ node key json k q. right_rows g.endpoint s node key json holds k q)
          (rw same at copying) in
      let home = λ (key : ℕ) (o : NodeInfo) (r : route_node slice name_bytes meta key ≡ ok o).
        copied.others o.node_id key (unregistered o (is_registered key o r)) ∙ holds.home key o r in
      (
        meta_same ∙ same,
        mig_same ∙ mig,
        record {
          home = home;
          alone = λ key o other r k ne.
              copied.others other.node_id key (unregistered other k)
              ∙ holds.alone key o other r k ne;
        },
        λ key. elim (Option-cases (s key)) [
          | inl nothing ↦ λ moved. elim (copied.current key (current key) moved) [
            | inl blank ↦ rw nothing blank
            | inr right ↦ right
          ]
          | inr (json, there) ↦
              let (o, r, owner) = route_node-IsHome slice name_bytes meta key some_nodes pos in
              have o key json owner.registered (rw there at (holds.home key o r))
        ],
      )

  Phase1 : E → (ℕ → Option String) → Type 0
  Phase1 e s = Holds slice name_bytes calls meta e s × ((key : ℕ) → IsCurrent calls meta m e s key)

  Phase2 : E → (ℕ → Option String) → Type 0
  Phase2 e s = Holds slice name_bytes calls meta e s × ((key : ℕ) → HasCopy calls meta m e s key)

  -- A migration begins with nothing at the new node.
  added-Phase1 :
      (e e' : E) (addr : Option String) (s : ℕ → Option String)
      → calls.add_node e m.new_node addr ≡ (ok tt, e')
      → Holds slice name_bytes calls meta e s
      → ((key : ℕ) → calls.get e' m.new_node key ≡ ok none)
      → Phase1 e' s
  unfolding Phase1
  added-Phase1 e e' addr s added holds empty = (
    record {
      home = λ key n r.
          calls.get-add_node e e' m.new_node n.node_id addr key added
            (unregistered n (is_registered key n r))
          ∙ holds.home key n r;
      alone = λ key n other r h ne.
          calls.get-add_node e e' m.new_node other.node_id addr key added (unregistered other h)
          ∙ holds.alone key n other r h ne;
    },
    λ key moved. inl (empty key),
  )

  -- Writes, catching up and more writes: at the end both the old nodes and the new one are right.
  copied_run :
      (g1 g2 g3 g4 : Gateway E) (s : ℕ → Option String) (before after : List Document) (n : ℕ)
      → m.shadow ≡ true
      → g1.meta ≡ meta
      → g1.migration ≡ some m
      → Phase1 g1.endpoint s
      → put_all slice name_bytes calls g1 before ≡ (ok tt, g2)
      → catch_up calls extract_terms g2 ≡ (ok n, g3)
      → put_all slice name_bytes calls g3 after ≡ (ok tt, g4)
      → Phase2 g4.endpoint (writes (writes s before) after)
        × (g4.meta ≡ meta)
        × (g4.migration ≡ some m)
  unfolding Phase1 Phase2
  copied_run g1 g2 g3 g4 s before after n live same mig p wrote1 caught wrote2 =
      let (p2, same2, mig2) =
        put_all_keeps slice name_bytes calls meta m Phase1 pos live
          (λ o d e e' t r w q. (
            wrote-Holds slice name_bytes calls meta m unregistered is_registered o d e e' r w t q.0,
            λ key.
                wrote-IsCurrent slice name_bytes calls meta m unregistered is_registered o d e e' r
                  w t key (q.1 key),
          ))
          before g1 g2 s same mig p wrote1 in
      let (same3, mig3, holds3, copies3) =
        catch_up-HasCopy g2 g3 (writes s before) n same2 mig2 p2.0 p2.1 caught in
      put_all_keeps slice name_bytes calls meta m Phase2 pos live
        (λ o d e e' t r w q. (
          wrote-Holds slice name_bytes calls meta m unregistered is_registered o d e e' r w t q.0,
          λ key.
              wrote-HasCopy slice name_bytes calls meta m unregistered is_registered o d e e' r w t
                key (q.1 key),
        ))
        after g3 g4 (writes s before) same3 mig3 (holds3, copies3) wrote2

module _ {E : Type 0} (slice : SliceMethods) (name_bytes : String → Bytes) (calls : ShardEndpoint E)
    (meta meta' : MetaCenter) (node addr role : String) (moved : List ℕ)
    (injective : (a b : String) → name_bytes a ≡ name_bytes b → a ≡ b)
    (some_nodes : 0 < length meta.nodes) (pos : 0 < meta.virtual_shards)
    (settled : (v : ℕ)
      → v < meta.virtual_shards
      → IsSettled (map (λ n. name_bytes n.node_id) meta.nodes ++ (name_bytes node ∷ [])) v)
    (unknown : has_text node (node_ids meta) ≡ false)
    (computed : compute_moved_vshards slice
        (map name_bytes (node_ids meta))
        (map name_bytes (node_ids meta ++ (node ∷ [])))
        meta.virtual_shards
      ≡ ok moved)
    (registered : register meta node addr role ≡ (ok tt, meta')) where
  -- A read by the new routes finds what the old nodes and the new one hold.
  read_after :
      (e : E) (s : ℕ → Option String) (key : ℕ)
      → Holds slice name_bytes calls meta e s
      → HasCopy calls meta (new_migration node addr role moved) e s key
      → (n : NodeInfo) × (route_node slice name_bytes meta' key ≡ ok n)
        × (calls.get e n.node_id key ≡ ok (s key))
  unfolding new_migration
  read_after e s key holds copy =
      let shards = registered_shards name_bytes meta meta' node addr role unknown registered in
      let (n, r, home) = route_node-IsHome slice name_bytes meta key some_nodes pos in
      let (n', r', home') =
        route_node-IsHome slice name_bytes meta' key
          (still_nodes name_bytes meta meta' node addr role unknown registered) (rw shards pos) in
      (
        n',
        r',
        elim (home_after slice name_bytes meta meta' node addr role moved injective
            (omega (arith, length-map (λ (x : NodeInfo). name_bytes x.node_id) meta.nodes)) pos
            unknown computed registered settled key n n' home home') [
              | inl (listed, at_new) ↦ rw at_new (copy listed)
              | inr (unlisted, stays) ↦ rw stays (holds.home key n r)
            ],
      )

module _ {E : Type 0} (slice : SliceMethods) (name_bytes : String → Bytes) (calls : ShardEndpoint E)
    (extract_terms : String → List String) (node addr role : String) (g g1 g2 g3 g4 g5 : Gateway E)
    (s : ℕ → Option String) (before after : List Document) (begun caught committed : ℕ) where
  -- A migration loses no document: if the cluster holds each document at the node that it is routed to and
  -- nowhere else, the new node is empty, and beginning, the writes, catching up, more writes and
  -- committing all return `Ok`, then every read afterwards gives the document last written, or none if
  -- there was none. Node names with the same bytes are the same, and no two nodes have a point that
  -- follows a shard's hash.
  pub migration_lossless :
      ((a b : String) → name_bytes a ≡ name_bytes b → a ≡ b)
      → 0 < length g.meta.nodes
      → 0 < g.meta.virtual_shards
      → ((v : ℕ)
          → v < g.meta.virtual_shards
          → IsSettled (map (λ n. name_bytes n.node_id) g.meta.nodes ++ (name_bytes node ∷ [])) v)
      → Holds slice name_bytes calls g.meta g.endpoint s
      → ((key : ℕ) → calls.get g1.endpoint node key ≡ ok none)
      → begin_migration slice name_bytes calls node addr role g ≡ (ok begun, g1)
      → put_all slice name_bytes calls g1 before ≡ (ok tt, g2)
      → catch_up calls extract_terms g2 ≡ (ok caught, g3)
      → put_all slice name_bytes calls g3 after ≡ (ok tt, g4)
      → commit_migration g4 ≡ (ok committed, g5)
      → (key : ℕ) → get slice name_bytes calls g5 key ≡ ok (writes (writes s before) after key)
  unfolding get new_migration Phase2
  migration_lossless injective some_nodes pos settled holds empty began wrote1 caught_up wrote2 done
        key =
      let (moved, unknown, computed, added, same1, mig1) =
        begin_migration-ok slice name_bytes calls node addr role g g1 begun began in
      let m = new_migration node addr role moved in
      let p1 =
        added-Phase1 slice name_bytes calls extract_terms g.meta m some_nodes pos unknown g.endpoint
          g1.endpoint (some addr) s added holds empty in
      let (p4, same4, mig4) =
        copied_run slice name_bytes calls extract_terms g.meta m some_nodes pos unknown g1 g2 g3 g4
          s before after caught refl same1 mig1 p1 wrote1 caught_up wrote2 in
      let (registered, endpoint_same) = commit_migration-ok g4 g5 m committed mig4 done in
      let (n, r, found_at) =
        read_after slice name_bytes calls g.meta g5.meta node addr role moved injective some_nodes
          pos settled unknown computed (rw same4 at registered) g4.endpoint
          (writes (writes s before) after) key p4.0 (p4.1 key) in
      rw (r, endpoint_same) found_at
