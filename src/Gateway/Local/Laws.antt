-- ===== src/Gateway/Local/Laws.antt =====
-- The endpoint in the process keeps what the gateway expects of an endpoint.
use Prim.Native.String.{String}
use text.Mathlib.TextEquality.{eq_iff}
use shanshui_cunji.Prelude.{
  ℕ, ◌≡◌, ◌↔◌, refl, sym, ap, ◌∙◌, List, [], ◌∷◌, Bool, true, false, ◌&&◌, Option, some,
  if◌then◌else◌, ◌==◌, Mem, Bool-cases, Option-cases, inl, inr, lookup, lookup-insert, is_some,
}
use shanshui_cunji.Prelude.Texts.{same_text, text_get, text_put, text_get-put}
use shanshui_cunji.Prelude.Sorting.{sort_by_key, sort_by_key-Mem}
use shanshui_cunji.Errors.{Error, Result, ok, err}
use shanshui_cunji.Gateway.Endpoint.{ShardEndpoint, Document, and_then-ok}
use shanshui_cunji.Gateway.Local.HashRows.{Rows, Mem-lookup, lookup-Mem}
use shanshui_cunji.Gateway.Local.{
  LocalShardEndpoint, default_shard, put_doc, put_at, put, put_batch, get, scan_all, ping, add_node,
}

no_result :
    {X S : Type 0} {x : X} {e : Error} {s s' : S} → ◌≡◌ {A = Result X × S} (err e, s) (ok x, s') → ⊥
no_result h = cc

ok_if :
    {X : Type 0} (b : Bool) (x y : X)
    → ◌≡◌ {A = Result X} (ok (if b then x else y)) (if b then ok x else ok y)
ok_if true x y = refl
ok_if false x y = refl

pub get-put :
    (e e' : LocalShardEndpoint) (node asked : String) (d : Document) (key : ℕ)
    → put e node d ≡ (ok tt, e')
    → get e' asked key
      ≡ (if same_text node asked && (d.docid == key) then ok (some d.json) else get e asked key)
unfolding put put_at get put_doc
get-put e e' node asked d key h = elim (Option-cases (text_get node e)) [
  | inl missing ↦ absurd (no_result (rw missing at h))
  | inr (shard, there) ↦
      let same : text_put node (put_doc d shard) e ≡ e' =
        ap (λ (x : Result (Unit {0}) × LocalShardEndpoint). x.1) (rw there at h) in
      rw (← same, text_get-put node asked (put_doc d shard) e)
        (elim (Bool-cases (same_text node asked)) [
          | inl here ↦
              let name : node ≡ asked = (eq_iff node asked).0 here in
              rw (here, lookup-insert d.docid key d.json shard.docs, ← name, there)
                (ok_if (d.docid == key) (some d.json) (lookup key shard.docs))
          | inr away ↦ rw away refl
        ])
]

pub get-put_batch :
    (e e' : LocalShardEndpoint) (node asked : String) (ds : List Document) (key : ℕ)
    → put_batch e node ds ≡ (ok tt, e')
    → same_text node asked ≡ false
    → get e' asked key ≡ get e asked key
unfolding put_batch
get-put_batch e e' node asked [] key h ne =
    ap (λ (x : LocalShardEndpoint). get x asked key)
      (sym (ap (λ (x : Result (Unit {0}) × LocalShardEndpoint). x.1) h))
get-put_batch e e' node asked (d ∷ ds) key h ne =
    let (u, e1, one, rest) = and_then-ok (put e node d) (λ u e1. put_batch e1 node ds) h in
    get-put_batch e1 e' node asked ds key rest ne ∙ rw (get-put e e1 node asked d key one, ne) refl

pub get-add_node :
    (e e' : LocalShardEndpoint) (node asked : String) (addr : Option String) (key : ℕ)
    → add_node e node addr ≡ (ok tt, e')
    → same_text node asked ≡ false
    → get e' asked key ≡ get e asked key
unfolding add_node get
get-add_node e e' node asked addr key h ne =
    let state = ap (λ (x : Result (Unit {0}) × LocalShardEndpoint). x.1) h in
    rw (← state) (elim (Bool-cases (is_some (text_get node e))) [
      | inl there ↦ rw there refl
      | inr new' ↦ rw (new', text_get-put node asked default_shard e, ne) refl
    ])

no_rows : {rows : Rows} {e : Error} → ◌≡◌ {A = Result Rows} (err e) (ok rows) → ⊥
no_rows h = cc

same_rows : {rs rows : Rows} → ◌≡◌ {A = Result Rows} (ok rs) (ok rows) → rs ≡ rows
same_rows h = cc

some_json : {o p : Option String} → ◌≡◌ {A = Result (Option String)} (ok o) (ok p) → o ≡ p
some_json h = cc

pub scan_all-get :
    (e : LocalShardEndpoint) (node : String) (rows : Rows) (key : ℕ) (json : String)
    → scan_all e node ≡ ok rows
    → Mem (key, json) rows ↔ (get e node key ≡ ok (some json))
unfolding scan_all get
scan_all-get e node rows key json h = elim (Option-cases (text_get node e)) [
  | inl missing ↦ absurd (no_rows (rw missing at h))
  | inr (shard, there) ↦
      let listed : sort_by_key shard.docs ≡ rows = same_rows (rw there at h) in
      let (f, b) = sort_by_key-Mem shard.docs (key, json) in
      rw (← listed, there)
        (
          λ m. ap ok (Mem-lookup key json shard.docs shard.once (f m)),
          λ g. b (lookup-Mem key json shard.docs (some_json g)),
        )
]

unfoldable pub local_endpoint : ShardEndpoint LocalShardEndpoint
local_endpoint = record {
  put = put;
  put_batch = put_batch;
  get = get;
  scan_all = scan_all;
  ping = ping;
  add_node = add_node;
  get-put = get-put;
  get-put_batch = get-put_batch;
  get-add_node = get-add_node;
  scan_all-get = scan_all-get;
}
