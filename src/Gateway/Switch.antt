-- ===== src/Gateway/Switch.antt =====
-- Who owns a document after the new node was registered.
use Prim.Native.String.{String}
use native.Mathlib.Nat.{mod-lt}
use shanshui_cunji.Prelude.{
  ℕ, ◌%◌, ◌<◌, ◌≡◌, refl, sym, ap, ◌∙◌, List, [], ◌∷◌, ◌++◌, true, false, Option, some, map, length,
  length-map, length-append, get_elem?, get_elem?-append, get_elem?-lt, contains, arith, inl, inr,
  ◌⊎◌,
}
use shanshui_cunji.Prelude.Texts.{has_text}
use shanshui_cunji.Bytes.{Bytes}
use shanshui_cunji.Errors.{Result, ok}
use shanshui_cunji.Meta.{NodeInfo, MetaCenter, register, node_ids}
use shanshui_cunji.Sharding.Slice.{SliceMethods}
use shanshui_cunji.Sharding.{hash64, ring_points}
use shanshui_cunji.Sharding.Clockwise.{IsNext, node_of_virtual_shard-IsNext, new-ok}
use shanshui_cunji.Sharding.Names.{IsOwner, IsNext-IsOwner, IsOwner-IsNext, IsOwner_reordered}
use shanshui_cunji.Sharding.Reshard.{compute_moved_vshards}
use shanshui_cunji.Sharding.Reshard.Moved.{IsSettled, taken_or_kept, compute_moved_vshards_lem}
use shanshui_cunji.Gateway.{route_node}
use shanshui_cunji.Gateway.Owners.{IsHome, route_node-IsHome}
use shanshui_cunji.Gateway.Registered.{
  names_map, names-append, registered_shards, still_nodes, names_kept, kept_names,
}

last_name : (names : List Bytes) (b : Bytes) → get_elem? (names ++ (b ∷ [])) (length names) ≡ some b
last_name [] b = refl
last_name (n ∷ ns) b = last_name ns b

true-false : true ≡ false → ⊥
true-false h = cc

pub ok_same : {X : Type 0} {x y : X} {r : Result X} → r ≡ ok x → r ≡ ok y → x ≡ y
ok_same {x = x} {y = y} e f = let both : ok x ≡ ok y = sym e ∙ f in cc

some_same : {X : Type 0} {x y : X} {o : Option X} → o ≡ some x → o ≡ some y → x ≡ y
some_same {x = x} {y = y} e f = let both : some x ≡ some y = sym e ∙ f in cc

module _ (slice : SliceMethods) (name_bytes : String → Bytes) (meta meta' : MetaCenter)
    (node addr role : String) (moved : List ℕ)
    (injective : (a b : String) → name_bytes a ≡ name_bytes b → a ≡ b)
    (some_nodes : 0 < length (map (λ n. name_bytes n.node_id) meta.nodes))
    (pos : 0 < meta.virtual_shards) (unknown : has_text node (node_ids meta) ≡ false)
    (computed : compute_moved_vshards slice
        (map name_bytes (node_ids meta))
        (map name_bytes (node_ids meta ++ (node ∷ [])))
        meta.virtual_shards
      ≡ ok moved)
    (done : register meta node addr role ≡ (ok tt, meta'))
    (settled : (v : ℕ)
      → v < meta.virtual_shards
      → IsSettled (map (λ n. name_bytes n.node_id) meta.nodes ++ (name_bytes node ∷ [])) v) where
  -- The owner's place on the grown ring, whatever the order of the nodes.
  place_after :
      (v place : ℕ) (n' : NodeInfo)
      → IsOwner
          (map (λ n. name_bytes n.node_id) meta'.nodes)
          (hash64 v)
          place
          (name_bytes n'.node_id)
      → (i : ℕ) × (get_elem?
            (map (λ n. name_bytes n.node_id) meta.nodes ++ (name_bytes node ∷ []))
            i
          ≡ some (name_bytes n'.node_id))
        × IsNext
            (ring_points 0 (map (λ n. name_bytes n.node_id) meta.nodes ++ (name_bytes node ∷ [])))
            (hash64 v)
            (place, i)
  place_after v place n' o =
      let old = map (λ (n : NodeInfo). name_bytes n.node_id) meta.nodes in
      let grown = old ++ (name_bytes node ∷ []) in
      IsOwner-IsNext grown (hash64 v) place (name_bytes n'.node_id) (
        IsOwner_reordered (map (λ n. name_bytes n.node_id) meta'.nodes) grown (hash64 v) place
          (name_bytes n'.node_id) (kept_names name_bytes meta meta' node addr role unknown done)
          (names_kept name_bytes meta meta' node addr role unknown done) o)

  -- A document of a moved shard goes to the new node, and every other one keeps its node.
  pub home_after :
      (docid : ℕ) (n n' : NodeInfo)
      → IsHome slice name_bytes meta docid n
      → IsHome slice name_bytes meta' docid n'
      → (contains moved (hash64 docid % meta.virtual_shards) ≡ true) × (n'.node_id ≡ node)
        ⊎ (contains moved (hash64 docid % meta.virtual_shards) ≡ false) × (n'.node_id ≡ n.node_id)
  unfolding node_ids
  home_after docid n n' h h' =
      let old = map (λ (x : NodeInfo). name_bytes x.node_id) meta.nodes in
      let grown = old ++ (name_bytes node ∷ []) in
      let vs = meta.virtual_shards in
      let v = hash64 docid % vs in
      let (r, made) = new-ok slice vs old some_nodes in
      let (r', made') =
        new-ok slice vs grown (omega (arith, length-append old (name_bytes node ∷ []))) in
      let (moved2, computed2, verdicts) =
        compute_moved_vshards_lem slice vs old (name_bytes node) r r' made made' settled in
      let same_set : moved2 ≡ moved = ok_same computed2 (
        rw (names_map name_bytes meta.nodes, names-append name_bytes meta.nodes node) at
          computed) in
      let in_range : v < vs = mod-lt (hash64 docid) pos in
      let (po, o_is, o_next) = node_of_virtual_shard-IsNext slice vs old r made v in
      let (pg, g_is, g_next) = node_of_virtual_shard-IsNext slice vs grown r' made' v in
      let (i', at_i', next') =
        place_after v h'.place n'
          (rw (registered_shards name_bytes meta meta' node addr role unknown done) at h'.owner) in
      let (i, at_i, next) = IsOwner-IsNext old (hash64 v) h.place (name_bytes n.node_id) h.owner in
      let there : i' ≡ pg.1 = settled v in_range (h'.place, i') pg next' g_next in
      let known : contains moved2 v ≡ contains moved v =
        ap (λ (xs : List ℕ). contains xs v) same_set in
      let inside : i < length old = get_elem?-lt old i at_i in
      let po_inside : po.1 < length old =
        (let (b, e, o) = IsNext-IsOwner old (hash64 v) po o_next in get_elem?-lt old po.1 e) in
      elim (verdicts v in_range) [
        | inl (listed, taken) ↦
            let last : pg.1 ≡ length old = ok_same g_is taken in
            inl (
              sym known ∙ listed,
              injective n'.node_id node
                  (some_same at_i' (rw (there, last) (last_name old (name_bytes node)))),
            )
        | inr (unlisted, stays) ↦
            let same_node : pg.1 ≡ po.1 = ok_same g_is (stays ∙ o_is) in
            let own : pg.1 ≡ i =
              elim (taken_or_kept old (name_bytes node) v (h.place, i) pg (settled v in_range) next
                g_next) [ inl at_end ↦ absurd (omega arith) | inr kept ↦ kept ] in
            inr (
              sym known ∙ unlisted,
              injective n'.node_id n.node_id (
                  some_same at_i' (
                    rw (there, own) (get_elem?-append old (name_bytes node ∷ []) i inside ∙ at_i))),
            )
      ]

  -- A document of a moved shard is routed to the new node.
  pub route_moved :
      (key : ℕ)
      → contains moved (hash64 key % meta.virtual_shards) ≡ true
      → (n : NodeInfo) × (route_node slice name_bytes meta' key ≡ ok n) × (n.node_id ≡ node)
  route_moved key listed =
      let shards = registered_shards name_bytes meta meta' node addr role unknown done in
      let (n, r, home) =
        route_node-IsHome slice name_bytes meta key
          (omega (arith, length-map (λ (x : NodeInfo). name_bytes x.node_id) meta.nodes)) pos in
      let (n', r', home') =
        route_node-IsHome slice name_bytes meta' key
          (still_nodes name_bytes meta meta' node addr role unknown done) (rw shards pos) in
      (
        n',
        r',
        elim (home_after key n n' home home') [
          | inl (t, at_new) ↦ at_new
          | inr (f, stays) ↦ absurd (true-false (sym listed ∙ f))
        ],
      )
