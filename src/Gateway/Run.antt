-- ===== src/Gateway/Run.antt =====
-- A run of writes through the gateway, and what it takes to begin and to commit a migration.
use Prim.Native.String.{String}
use shanshui_cunji.Prelude.{
  ℕ, ◌<◌, ◌≡◌, sym, ap, ◌∙◌, List, [], ◌∷◌, ◌++◌, true, false, Option, none, some, map, length, inl,
  inr, Bool-cases, is_some,
}
use shanshui_cunji.Prelude.Texts.{has_text}
use shanshui_cunji.Bytes.{Bytes}
use shanshui_cunji.Errors.{Error, Result, ok, err}
use shanshui_cunji.Meta.{NodeInfo, MetaCenter, node_ids, register}
use shanshui_cunji.Sharding.Slice.{SliceMethods}
use shanshui_cunji.Sharding.Reshard.{Migration, new_migration, compute_moved_vshards}
use shanshui_cunji.Gateway.Endpoint.{ShardEndpoint, Document, and_then, and_then-ok}
use shanshui_cunji.Gateway.{
  Gateway, route_node, put, start_migration, begin_migration, commit_to, commit_migration,
}
use shanshui_cunji.Gateway.Writes.{write, put-get}
use shanshui_cunji.Gateway.Keeps.{Wrote}

no_result :
    {X S : Type 0} {x : X} {e : Error} {s s' : S} → ◌≡◌ {A = Result X × S} (err e, s) (ok x, s') → ⊥
no_result h = cc

-- The documents after a run of writes.
abbrev pub writes : (ℕ → Option String) → List Document → ℕ → Option String
writes s [] = s
writes s (d ∷ ds) = writes (write s d) ds

module _ {E : Type 0} (slice : SliceMethods) (name_bytes : String → Bytes)
    (calls : ShardEndpoint E) where
  unfoldable pub put_all : Gateway E → List Document → Result (Unit {0}) × Gateway E
  put_all g [] = (ok tt, g)
  put_all g (d ∷ ds) = and_then (put slice name_bytes calls g d) (λ name g'. put_all g' ds)

  -- What every write keeps holds after a run.
  pub put_all_keeps :
      (meta : MetaCenter) (m : Migration) (P : E → (ℕ → Option String) → Type 0)
      → 0 < meta.virtual_shards
      → m.shadow ≡ true
      → ((n : NodeInfo) (d : Document) (e e' : E) (s : ℕ → Option String)
          → route_node slice name_bytes meta d.docid ≡ ok n
          → Wrote calls meta m n d e e'
          → P e s
          → P e' (write s d))
      → (ds : List Document) (g g' : Gateway E) (s : ℕ → Option String) → g.meta ≡ meta
      → g.migration ≡ some m
      → P g.endpoint s
      → put_all g ds ≡ (ok tt, g')
      → P g'.endpoint (writes s ds) × (g'.meta ≡ meta) × (g'.migration ≡ some m)
  unfolding put_all
  put_all_keeps meta m P pos live step [] g g' s same mig p h =
      let e : g ≡ g' = ap (λ (x : Result (Unit {0}) × Gateway E). x.1) h in rw (← e) (p, same, mig)
  put_all_keeps meta m P pos live step (d ∷ ds) g g' s same mig p h =
      let (name, g1, one, h1) =
        and_then-ok (put slice name_bytes calls g d) (λ name g1. put_all g1 ds) h in
      let (n, routed, meta1, mig1, wrote) =
        put-get slice name_bytes calls g g1 m d name (rw same pos) live mig one in
      put_all_keeps meta m P pos live step ds g1 g' (write s d) (meta1 ∙ same) (mig1 ∙ mig)
        (step n d g.endpoint g1.endpoint s (rw same at routed) (rw same at wrote) p) h1

  start_migration-ok :
      (node addr role : String) (moved : List ℕ) (g g' : Gateway E) (n : ℕ)
      → start_migration calls node addr role moved g ≡ (ok n, g')
      → (calls.add_node g.endpoint node (some addr) ≡ (ok tt, g'.endpoint))
        × (g'.meta ≡ g.meta)
        × (g'.migration ≡ some (new_migration node addr role moved))
  unfolding start_migration
  start_migration-ok node addr role moved g g' n h =
      let call = calls.add_node g.endpoint node (some addr) in
      let (u, g1, added, h1) =
        and_then-ok (call.0, record g { endpoint = call.1 })
          (λ u g1. (
            ok (length moved),
            record g1 { migration = some (new_migration node addr role moved) },
          ))
          h in
      let state = ap (λ (x : Result (Unit {0}) × Gateway E). x.1) added in
      let last = ap (λ (x : Result ℕ × Gateway E). x.1) h1 in
      (
        (λ i. ((added i).0, (state i).endpoint)) ∙ ap (λ (x : Gateway E). (ok tt, x.endpoint)) last,
        sym (ap (λ (x : Gateway E). x.meta) state ∙ ap (λ (x : Gateway E). x.meta) last),
        sym (ap (λ (x : Gateway E). x.migration) last),
      )

  -- A migration that began: the new name is unknown, the set is the computed one, the routes are the old
  -- ones.
  pub begin_migration-ok :
      (node addr role : String) (g g' : Gateway E) (n : ℕ)
      → begin_migration slice name_bytes calls node addr role g ≡ (ok n, g')
      → (moved : List ℕ) × (has_text node (node_ids g.meta) ≡ false)
        × (compute_moved_vshards slice
              (map name_bytes (node_ids g.meta))
              (map name_bytes (node_ids g.meta ++ (node ∷ [])))
              g.meta.virtual_shards
            ≡ ok moved)
        × (calls.add_node g.endpoint node (some addr) ≡ (ok tt, g'.endpoint))
        × (g'.meta ≡ g.meta)
        × (g'.migration ≡ some (new_migration node addr role moved))
  unfolding begin_migration start_migration
  begin_migration-ok node addr role g g' n h = elim (Bool-cases (is_some g.migration)) [
    | inl busy ↦ absurd (no_result (rw busy at h))
    | inr idle ↦ elim (Bool-cases (has_text node (node_ids g.meta))) [
      | inl known ↦ absurd (no_result (rw (idle, known) at h))
      | inr unknown ↦
          let (moved, g0, made, h1) =
            and_then-ok
              (
                compute_moved_vshards slice (map name_bytes (node_ids g.meta))
                    (map name_bytes (node_ids g.meta ++ (node ∷ []))) g.meta.virtual_shards,
                g,
              )
              (λ moved g0. start_migration calls node addr role moved g0)
              (rw (idle, unknown) at h) in
          let same : g ≡ g0 = ap (λ (x : Result (List ℕ) × Gateway E). x.1) made in
          let (added, meta_same, mig) =
            start_migration-ok node addr role moved g g' n (rw (← same) at h1) in
          (
            moved,
            unknown,
            ap (λ (x : Result (List ℕ) × Gateway E). x.0) made,
            added,
            meta_same,
            mig,
          )
    ]
  ]

-- A committed migration registered the new node, and left the nodes as they were.
pub commit_migration-ok :
    {E : Type 0} (g g' : Gateway E) (m : Migration) (n : ℕ)
    → g.migration ≡ some m
    → commit_migration g ≡ (ok n, g')
    → (register g.meta m.new_node m.new_addr m.new_role ≡ (ok tt, g'.meta))
      × (g'.endpoint ≡ g.endpoint)
unfolding commit_migration commit_to
commit_migration-ok {E = E} g g' m n mig h =
    let call = register g.meta m.new_node m.new_addr m.new_role in
    let (u, g1, done, h1) =
      and_then-ok (call.0, record g { meta = call.1 })
        (λ u g1. (ok (length m.moved_vshards), record g1 { migration = none }))
        (ap (λ (o : Option Migration). commit_to o g) (sym mig) ∙ h) in
    let state = ap (λ (x : Result (Unit {0}) × Gateway E). x.1) done in
    let last = ap (λ (x : Result ℕ × Gateway E). x.1) h1 in
    (
      (λ i. ((done i).0, (state i).meta)) ∙ ap (λ (x : Gateway E). (ok tt, x.meta)) last,
      sym (ap (λ (x : Gateway E). x.endpoint) state ∙ ap (λ (x : Gateway E). x.endpoint) last),
    )
