-- ===== src/Gateway/CatchUp.antt =====
-- Catching up copies the documents of the moved shards to the new node.
use Prim.Native.String.{String}
use text.Mathlib.TextEquality.{eq_iff}
use shanshui_cunji.Prelude.{
  ℕ, ◌+◌, ◌<◌, ◌≡◌, refl, sym, ap, ◌∙◌, List, [], ◌∷◌, true, false, Option, some, ◌==◌, ==_refl,
  contains, Mem, arith, inl, inr, Bool-cases,
}
use shanshui_cunji.Prelude.Texts.{same_text}
use shanshui_cunji.Errors.{Result, ok}
use shanshui_cunji.Meta.{NodeInfo, MetaCenter}
use shanshui_cunji.Sharding.Reshard.{Migration}
use shanshui_cunji.Gateway.Endpoint.{ShardEndpoint, Document, and_then-ok}
use shanshui_cunji.Gateway.{copy_row, copy_rows, copy_node, copy_nodes}
use shanshui_cunji.Gateway.Writes.{shard, virtual_shard_of-ok}
use shanshui_cunji.Gateway.Keeps.{HasCopy, IsCurrent}

module _ {E : Type 0} (calls : ShardEndpoint E) (extract_terms : String → List String)
    (meta : MetaCenter) (m : Migration) (pos : 0 < meta.virtual_shards)
    (s : ℕ → Option String) where
  -- Copying leaves the other nodes alone and keeps what the new node has right.
  pub record Copied (e e' : E) : Type 0 where
    pub others :
        (asked : String) (key : ℕ)
        → same_text m.new_node asked ≡ false
        → calls.get e' asked key ≡ calls.get e asked key
    pub current : (key : ℕ) → IsCurrent calls meta m e s key → IsCurrent calls meta m e' s key
    pub kept : (key : ℕ) → HasCopy calls meta m e s key → HasCopy calls meta m e' s key

  Copied-refl : (e : E) → Copied e e
  Copied-refl e = record { others = λ a k h. refl; current = λ k h. h; kept = λ k h. h }

  Copied-trans : (e e1 e2 : E) → Copied e e1 → Copied e1 e2 → Copied e e2
  Copied-trans e e1 e2 a b = record {
    others = λ asked k h. b.others asked k h ∙ a.others asked k h;
    current = λ k h. b.current k (a.current k h);
    kept = λ k h. b.kept k (a.kept k h);
  }

  -- One document that is not out of date.
  put-Copied :
      (key : ℕ) (json : String) (terms : List String) (e e' : E)
      → s key ≡ some json
      → calls.put e m.new_node (record { docid = key; json = json; terms = terms }) ≡ (ok tt, e')
      → Copied e e' × HasCopy calls meta m e' s key
  put-Copied key json terms e e' right h =
      let d : Document = record { docid = key; json = json; terms = terms } in
      let same_name : same_text m.new_node m.new_node ≡ true =
        (eq_iff m.new_node m.new_node).1 refl in
      let new_has = λ (asked : ℕ). calls.get-put e e' m.new_node m.new_node d asked h in
      let here = λ (asked : ℕ) (q : (key == asked) ≡ true).
        (let same_key : key ≡ asked = ground arith in
          let r : s asked ≡ some json = rw (← same_key) right in
          let g : calls.get e' m.new_node asked ≡ ok (s asked) =
            rw (new_has asked, same_name, q, r) refl in
          g) in
      let far = λ (asked : ℕ) (q : (key == asked) ≡ false).
        (let g : calls.get e' m.new_node asked ≡ calls.get e m.new_node asked =
            rw (new_has asked, same_name, q) refl in
          g) in
      (
        record {
          others = λ asked k ne. rw (calls.get-put e e' m.new_node asked d k h, ne) refl;
          current = λ k c moved. elim (Bool-cases (key == k)) [
            | inl q ↦ inr (here k q)
            | inr q ↦ rw (far k q) (c moved)
          ];
          kept = λ k c moved. elim (Bool-cases (key == k)) [
            | inl q ↦ here k q
            | inr q ↦ rw (far k q) (c moved)
          ];
        },
        λ moved. here key (==_refl key),
      )

  copy_row-Copied :
      (key : ℕ) (json : String) (e e' : E) (n : ℕ)
      → s key ≡ some json
      → copy_row calls extract_terms meta m (key, json) e ≡ (ok n, e')
      → Copied e e' × HasCopy calls meta m e' s key
  unfolding copy_row
  copy_row-Copied key json e e' n right h =
      let h' = rw (virtual_shard_of-ok meta key pos) at h in
      elim (Bool-cases (contains m.moved_vshards (shard meta key))) [
        | inl moved ↦
            let d : Document = record { docid = key; json = json; terms = extract_terms json } in
            let (u, e1, p, h1) =
              and_then-ok (calls.put e m.new_node d) (λ u e2. (ok 1, e2)) (rw moved at h') in
            let same : e1 ≡ e' = ap (λ (x : Result ℕ × E). x.1) h1 in
            put-Copied key json (extract_terms json) e e' right (rw same at p)
        | inr stays ↦
            let same : e ≡ e' = ap (λ (x : Result ℕ × E). x.1) (rw stays at h') in
            (rw (← same) (Copied-refl e), λ moved. absurd (cc))
      ]

  -- The rows of a node, none of which is out of date.
  copy_rows-Copied :
      (rows : List (ℕ × String)) (c n : ℕ) (e e' : E)
      → ((key : ℕ) (json : String) → Mem (key, json) rows → s key ≡ some json)
      → copy_rows calls extract_terms meta m rows c e ≡ (ok n, e')
      → Copied e e'
        × ((key : ℕ) (json : String) → Mem (key, json) rows → HasCopy calls meta m e' s key)
  unfolding copy_rows
  copy_rows-Copied [] c n e e' right h =
      let same : e ≡ e' = ap (λ (x : Result ℕ × E). x.1) h in
      (rw (← same) (Copied-refl e), λ key json k. elim k [ ])
  copy_rows-Copied ((k0, j0) ∷ rows) c n e e' right h =
      let (x, e1, row, h1) =
        and_then-ok (copy_row calls extract_terms meta m (k0, j0) e)
          (λ x e1. copy_rows calls extract_terms meta m rows (c + x) e1) h in
      let (first, has) = copy_row-Copied k0 j0 e e1 x (right k0 j0 (inl refl)) row in
      let (rest, have) =
        copy_rows-Copied rows (c + x) n e1 e' (λ key json k. right key json (inr k)) h1 in
      (
        Copied-trans e e1 e' first rest,
        λ key json k. elim k as (λ _. HasCopy calls meta m e' s key) [
          | inl q ↦
              let same_key : k0 ≡ key = ap (λ (x : ℕ × String). x.0) q in
              rest.kept key (rw same_key at has)
          | inr k' ↦ have key json k'
        ],
      )

  -- A node of the cluster whose documents are up to date.
  copy_node-Copied :
      (node : String) (c n : ℕ) (e e' : E)
      → same_text m.new_node node ≡ false
      → ((key : ℕ) (json : String) → calls.get e node key ≡ ok (some json) → s key ≡ some json)
      → copy_node calls extract_terms meta m node c e ≡ (ok n, e')
      → Copied e e'
        × ((key : ℕ) (json : String)
            → calls.get e node key ≡ ok (some json)
            → HasCopy calls meta m e' s key)
  unfolding copy_node
  copy_node-Copied node c n e e' apart right h =
      let other : same_text node m.new_node ≡ false =
        ground (arith, eq_iff node m.new_node, eq_iff m.new_node node) in
      let (rows, e1, scanned, h1) =
        and_then-ok (calls.scan_all e node, e)
          (λ rows e1. copy_rows calls extract_terms meta m rows c e1) (rw other at h) in
      let same : e ≡ e1 = ap (λ (x : Result (List (ℕ × String)) × E). x.1) scanned in
      let listed = ap (λ (x : Result (List (ℕ × String)) × E). x.0) scanned in
      let (copied, have) =
        copy_rows-Copied rows c n e e'
          (λ key json k. right key json ((calls.scan_all-get e node rows key json listed).0 k))
          (rw (← same) at h1) in
      (copied, λ key json g. have key json ((calls.scan_all-get e node rows key json listed).1 g))

  pub copy_nodes-Copied :
      (nodes : List NodeInfo) (c n : ℕ) (e e' : E)
      → ((node : NodeInfo) → Mem node nodes → same_text m.new_node node.node_id ≡ false)
      → ((node : NodeInfo) (key : ℕ) (json : String)
          → Mem node nodes
          → calls.get e node.node_id key ≡ ok (some json)
          → s key ≡ some json)
      → copy_nodes calls extract_terms meta m nodes c e ≡ (ok n, e')
      → Copied e e'
        × ((node : NodeInfo) (key : ℕ) (json : String)
            → Mem node nodes
            → calls.get e node.node_id key ≡ ok (some json)
            → HasCopy calls meta m e' s key)
  unfolding copy_nodes
  copy_nodes-Copied [] c n e e' apart right h =
      let same : e ≡ e' = ap (λ (x : Result ℕ × E). x.1) h in
      (rw (← same) (Copied-refl e), λ node key json k. elim k [ ])
  copy_nodes-Copied (o ∷ os) c n e e' apart right h =
      let (x, e1, one, h1) =
        and_then-ok (copy_node calls extract_terms meta m o.node_id c e)
          (λ x e1. copy_nodes calls extract_terms meta m os x e1) h in
      let (first, has) =
        copy_node-Copied o.node_id c x e e1 (apart o (inl refl))
          (λ key json g. right o key json (inl refl) g) one in
      let (rest, have) =
        copy_nodes-Copied os x n e1 e' (λ node k. apart node (inr k))
          (λ node key json k g.
            right node key json (inr k)
              (sym (first.others node.node_id key (apart node (inr k))) ∙ g))
          h1 in
      (
        Copied-trans e e1 e' first rest,
        λ node key json k.
            elim k
              as (λ _.
                calls.get e node.node_id key ≡ ok (some json) → HasCopy calls meta m e' s key) [
                  | inl q ↦ λ g. rest.kept key (has key json (rw (← q) at g))
                  | inr k' ↦ λ g.
                      have node key json k'
                        (first.others node.node_id key (apart node (inr k')) ∙ g)
                ],
      )
