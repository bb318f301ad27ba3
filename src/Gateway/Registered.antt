-- ===== src/Gateway/Registered.antt =====
-- The names that are registered after a new node has joined.
use Prim.Native.String.{String}
use text.Mathlib.TextEquality.{eq_iff}
use shanshui_cunji.Prelude.{
  length, ◌<◌, Mem-index, ◌≡◌, refl, sym, ap, ◌∙◌, false, not, List, [], ◌∷◌, ◌++◌, map, any,
  retain, Mem, Mem-append, Mem-append_left, Mem-append_right, Mem-retain, retain-Mem, Mem-map,
  map-Mem, arith, inl, inr, Bool-cases,
}
use shanshui_cunji.Prelude.Texts.{has_text, same_text}
use shanshui_cunji.Bytes.{Bytes}
use shanshui_cunji.Errors.{Error, Result, ok, err}
use shanshui_cunji.Meta.{
  NodeInfo, MetaCenter, register, register_nodes, masters_first, named, is_master, node_ids,
  valid_role,
}

Mem-masters_first : (n : NodeInfo) (ns : List NodeInfo) → Mem n ns → Mem n (masters_first ns)
unfolding masters_first
Mem-masters_first n ns h = elim (Bool-cases (is_master n)) [
  | inl e ↦ Mem-append_left n (retain is_master ns) _ (Mem-retain is_master n ns e h)
  | inr e ↦
      Mem-append_right n (retain is_master ns) _
        (Mem-retain (λ x. not (is_master x)) n ns (ap not e) h)
]

masters_first-Mem : (n : NodeInfo) (ns : List NodeInfo) → Mem n (masters_first ns) → Mem n ns
unfolding masters_first
masters_first-Mem n ns h = elim (Mem-append n (retain is_master ns) _ h) [
  | inl m ↦ retain-Mem is_master n ns m
  | inr m ↦ retain-Mem (λ x. not (is_master x)) n ns m
]

Result-apart : {X : Type 0} {x : X} {e : Error} → ◌≡◌ {A = Result X} (err e) (ok x) → ⊥
Result-apart h = cc

unknown_name :
    (name : String) (ns : List NodeInfo)
    → has_text name (map (λ n. n.node_id) ns) ≡ false
    → any (named name) ns ≡ false
unfolding has_text map
unknown_name name [] h = refl
unknown_name name (n ∷ ns) h = ground (arith, unknown_name name ns)

-- An unknown name is none of the registered ones.
pub other_names :
    (name : String) (ns : List NodeInfo) (n : NodeInfo)
    → has_text name (map (λ x. x.node_id) ns) ≡ false
    → Mem n ns
    → same_text name n.node_id ≡ false
unfolding has_text map
other_names name [] n h k = elim k [ ]
other_names name (x ∷ ns) n h (inl e) =
    rw (← e) (ground (arith, eq_iff x.node_id name, eq_iff name x.node_id))
other_names name (x ∷ ns) n h (inr k) = other_names name ns n (ground arith) k

module _ (name_bytes : String → Bytes) where
  pub names-append :
      (ns : List NodeInfo) (name : String)
      → map name_bytes (map (λ n. n.node_id) ns ++ (name ∷ []))
        ≡ map (λ n. name_bytes n.node_id) ns ++ (name_bytes name ∷ [])
  unfolding map
  names-append [] name = refl
  names-append (n ∷ ns) name = ap (λ r. name_bytes n.node_id ∷ r) (names-append ns name)

  pub names_map :
      (ns : List NodeInfo)
      → map name_bytes (map (λ n. n.node_id) ns) ≡ map (λ n. name_bytes n.node_id) ns
  unfolding map
  names_map [] = refl
  names_map (n ∷ ns) = ap (λ r. name_bytes n.node_id ∷ r) (names_map ns)

  module _ (meta meta' : MetaCenter) (node addr role : String)
      (unknown : has_text node (node_ids meta) ≡ false)
      (done : register meta node addr role ≡ (ok tt, meta')) where
    joined :
        (meta'.virtual_shards ≡ meta.virtual_shards)
        × (meta'.nodes
            ≡ masters_first
                (meta.nodes ++ (record { node_id = node; addr = addr; role = role } ∷ [])))
    unfolding register register_nodes node_ids
    joined = elim (Bool-cases (valid_role role)) [
      | inl e ↦
          let new_one : NodeInfo = record { node_id = node; addr = addr; role = role } in
          let grown : MetaCenter = record meta {
            nodes = register_nodes node addr role meta.nodes;
          } in
          let same : grown ≡ meta' =
            ap (λ (x : Result (Unit {0}) × MetaCenter). x.1) (rw e at done) in
          let nodes_same : register_nodes node addr role meta.nodes
              ≡ masters_first (meta.nodes ++ (new_one ∷ [])) =
            unfold register_nodes in rw (unknown_name node meta.nodes unknown) refl in
          (
            ap (λ (m : MetaCenter). m.virtual_shards) (sym same),
            ap (λ (m : MetaCenter). m.nodes) (sym same) ∙ nodes_same,
          )
      | inr e ↦
          absurd (Result-apart (ap (λ (x : Result (Unit {0}) × MetaCenter). x.0) (rw e at done)))
    ]

    pub registered_shards : meta'.virtual_shards ≡ meta.virtual_shards
    registered_shards = joined.0

    -- The names are the old ones and the new one, in some order.
    pub names_kept :
        (b : Bytes)
        → Mem b (map (λ n. name_bytes n.node_id) meta.nodes ++ (name_bytes node ∷ []))
        → Mem b (map (λ n. name_bytes n.node_id) meta'.nodes)
    names_kept b h =
        let f = λ (n : NodeInfo). name_bytes n.node_id in
        let new_one : NodeInfo = record { node_id = node; addr = addr; role = role } in
        let back = λ (n : NodeInfo) (m : Mem n (meta.nodes ++ (new_one ∷ []))).
          Mem-map f n meta'.nodes
            (rw joined.1 (Mem-masters_first n (meta.nodes ++ (new_one ∷ [])) m)) in
        elim (Mem-append b (map f meta.nodes) (name_bytes node ∷ []) h) [
          | inl m ↦
              let (n, k, e) = map-Mem f b meta.nodes m in
              rw e at (back n (Mem-append_left n meta.nodes (new_one ∷ []) k))
          | inr m ↦ elim m [
            | inl e ↦
                rw e at
                  (back new_one (Mem-append_right new_one meta.nodes (new_one ∷ []) (inl refl)))
            | inr m' ↦ elim m' [ ]
          ]
        ]

    pub kept_names :
        (b : Bytes)
        → Mem b (map (λ n. name_bytes n.node_id) meta'.nodes)
        → Mem b (map (λ n. name_bytes n.node_id) meta.nodes ++ (name_bytes node ∷ []))
    kept_names b h =
        let f = λ (n : NodeInfo). name_bytes n.node_id in
        let new_one : NodeInfo = record { node_id = node; addr = addr; role = role } in
        let (n, k, e) = map-Mem f b meta'.nodes h in
        elim (Mem-append n meta.nodes (new_one ∷ [])
          (masters_first-Mem n (meta.nodes ++ (new_one ∷ [])) (rw joined.1 at k))) [
            | inl m ↦
                Mem-append_left b (map f meta.nodes) (name_bytes node ∷ [])
                  (rw e at (Mem-map f n meta.nodes m))
            | inr m ↦ elim m [
              | inl s ↦
                  let same : name_bytes node ≡ b = ap f s ∙ e in
                  Mem-append_right b (map f meta.nodes) (name_bytes node ∷ []) (inl same)
              | inr m' ↦ elim m' [ ]
            ]
          ]

    pub still_nodes : 0 < length meta'.nodes
    still_nodes =
        let f = λ (n : NodeInfo). name_bytes n.node_id in
        let (n, k, e) = map-Mem f (name_bytes node) meta'.nodes (
          names_kept (name_bytes node) (
            Mem-append_right (name_bytes node) (map f meta.nodes) (name_bytes node ∷ [])
              (inl refl))) in
        let (i, q, l) = Mem-index n meta'.nodes k in omega arith
