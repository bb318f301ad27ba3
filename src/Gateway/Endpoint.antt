-- ===== src/Gateway/Endpoint.antt =====
-- src/gateway.rs: the trait through which the gateway reaches the nodes, with what its comments promise
-- of it: a document that was written is read back, and a scan lists what a node holds.
use Prim.Native.String.{String}
use shanshui_cunji.Prelude.{
  ℕ, ◌≡◌, refl, ◌==◌, ◌↔◌, Bool, true, false, ◌&&◌, Option, some, List, if◌then◌else◌, Mem,
}
use shanshui_cunji.Prelude.Texts.{same_text}
use shanshui_cunji.Errors.{Result, ok, err, panic}

-- A document's number, its JSON text and its terms.
pub record Document : Type 0 where
  pub docid : ℕ
  pub json : String
  pub terms : List String

-- `call()?` with the state that the call leaves behind.
abbrev pub and_then : {X Y S : Type 0} → Result X × S → (X → S → Result Y × S) → Result Y × S
and_then (ok x, s) f = f x s
and_then (err e, s) f = (err e, s)
and_then (panic, s) f = (panic, s)

abbrev pub is_ok : {X : Type 0} → Result X → Bool
is_ok (ok x) = true
is_ok (err e) = false
is_ok panic = false

-- A call that returned `Ok` went through both parts.
pub and_then-ok :
    {X Y S : Type 0} (call : Result X × S) (f : X → S → Result Y × S) {y : Y} {s : S}
    → and_then call f ≡ (ok y, s)
    → (x : X) × (t : S) × (call ≡ (ok x, t)) × (f x t ≡ (ok y, s))
and_then-ok (ok x, t) f h = (x, t, refl, h)
and_then-ok (err e, t) f h = cc
and_then-ok (panic, t) f h = cc

pub record ShardEndpoint (E : Type 0) : Type 0 where
  pub put : E → String → Document → Result (Unit {0}) × E
  pub put_batch : E → String → List Document → Result (Unit {0}) × E
  pub get : E → String → ℕ → Result (Option String)
  pub scan_all : E → String → Result (List (ℕ × String))
  pub ping : E → String → Result (Unit {0})
  pub add_node : E → String → Option String → Result (Unit {0}) × E
  -- A write reaches the named node and no other, and leaves the other documents alone.
  pub get-put :
      (e e' : E) (node asked : String) (d : Document) (key : ℕ)
      → put e node d ≡ (ok tt, e')
      → get e' asked key
        ≡ (if same_text node asked && (d.docid == key) then ok (some d.json) else get e asked key)
  pub get-put_batch :
      (e e' : E) (node asked : String) (ds : List Document) (key : ℕ)
      → put_batch e node ds ≡ (ok tt, e')
      → same_text node asked ≡ false
      → get e' asked key ≡ get e asked key
  pub get-add_node :
      (e e' : E) (node asked : String) (addr : Option String) (key : ℕ)
      → add_node e node addr ≡ (ok tt, e')
      → same_text node asked ≡ false
      → get e' asked key ≡ get e asked key
  pub scan_all-get :
      (e : E) (node : String) (rows : List (ℕ × String)) (key : ℕ) (json : String)
      → scan_all e node ≡ ok rows
      → Mem (key, json) rows ↔ (get e node key ≡ ok (some json))
