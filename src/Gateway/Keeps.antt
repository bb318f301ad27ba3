-- ===== src/Gateway/Keeps.antt =====
-- The nodes hold the documents that were written, while a migration is under way.
use Prim.Native.String.{String}
use text.Mathlib.TextEquality.{eq_iff}
use shanshui_cunji.Prelude.{
  ℕ, ◌≡◌, refl, ap, Bool, true, false, ◌&&◌, Option, none, some, if◌then◌else◌, ◌==◌, ==_refl,
  contains, Mem, arith, inl, inr, ◌⊎◌, Bool-cases,
}
use shanshui_cunji.Prelude.Texts.{same_text}
use shanshui_cunji.Bytes.{Bytes}
use shanshui_cunji.Errors.{ok}
use shanshui_cunji.Meta.{NodeInfo, MetaCenter}
use shanshui_cunji.Sharding.Slice.{SliceMethods}
use shanshui_cunji.Sharding.Reshard.{Migration}
use shanshui_cunji.Gateway.Endpoint.{ShardEndpoint, Document}
use shanshui_cunji.Gateway.{route_node}
use shanshui_cunji.Gateway.Switch.{ok_same}
use shanshui_cunji.Gateway.Writes.{write, shard, lands}

and_false : (b : Bool) → (b && false) ≡ false
and_false true = refl
and_false false = refl

module _ {E : Type 0} (slice : SliceMethods) (name_bytes : String → Bytes) (calls : ShardEndpoint E)
    (meta : MetaCenter) where
  -- The node that a document is routed to holds it, and no other registered node has one of its number.
  pub record Holds (e : E) (s : ℕ → Option String) : Type 0 where
    pub home :
        (key : ℕ) (n : NodeInfo)
        → route_node slice name_bytes meta key ≡ ok n
        → calls.get e n.node_id key ≡ ok (s key)
    pub alone :
        (key : ℕ) (n other : NodeInfo)
        → route_node slice name_bytes meta key ≡ ok n
        → Mem other meta.nodes
        → same_text n.node_id other.node_id ≡ false
        → calls.get e other.node_id key ≡ ok none

module _ {E : Type 0} (calls : ShardEndpoint E) (meta : MetaCenter) (m : Migration) where
  -- The new node holds the documents of the moved shards.
  abbrev pub HasCopy : E → (ℕ → Option String) → ℕ → Type 0
  HasCopy e s key =
      contains m.moved_vshards (shard meta key) ≡ true → calls.get e m.new_node key ≡ ok (s key)

  -- What the new node has of a moved shard is not out of date.
  abbrev pub IsCurrent : E → (ℕ → Option String) → ℕ → Type 0
  IsCurrent e s key =
      contains m.moved_vshards (shard meta key) ≡ true
      → (calls.get e m.new_node key ≡ ok none) ⊎ (calls.get e m.new_node key ≡ ok (s key))

  -- What a write of `d` at the node `n` leaves.
  abbrev pub Wrote : NodeInfo → Document → E → E → Type 0
  Wrote n d e e' =
      (asked : String) (key : ℕ)
      → calls.get e' asked key ≡ (
          if lands calls meta m d asked key
          then ok (some d.json)
          else if same_text n.node_id asked && (d.docid == key)
          then ok (some d.json)
          else calls.get e asked key)

module _ {E : Type 0} (slice : SliceMethods) (name_bytes : String → Bytes) (calls : ShardEndpoint E)
    (meta : MetaCenter) (m : Migration)
    (unregistered : (n : NodeInfo) → Mem n meta.nodes → same_text m.new_node n.node_id ≡ false)
    (registered : (key : ℕ) (n : NodeInfo)
      → route_node slice name_bytes meta key ≡ ok n
      → Mem n meta.nodes)
    (n : NodeInfo) (d : Document) (e e' : E)
    (routed : route_node slice name_bytes meta d.docid ≡ ok n)
    (wrote : Wrote calls meta m n d e e') where
  -- A write is no write to the new node where an old one is asked.
  at_old :
      (other : NodeInfo) (key : ℕ)
      → Mem other meta.nodes
      → calls.get e' other.node_id key ≡ (
          if same_text n.node_id other.node_id && (d.docid == key)
          then ok (some d.json)
          else calls.get e other.node_id key)
  at_old other key h =
      rw
        (
          wrote other.node_id key,
          unregistered other h,
          and_false (contains m.moved_vshards (shard meta d.docid)),
        )
        refl

  pub wrote-Holds :
      (s : ℕ → Option String)
      → Holds slice name_bytes calls meta e s
      → Holds slice name_bytes calls meta e' (write s d)
  wrote-Holds s holds = record {
    home = λ key n' r. elim (Bool-cases (d.docid == key)) [
      | inl here ↦
          let same_key : d.docid ≡ key = ground arith in
          let same : n ≡ n' = ok_same routed (rw same_key r) in
          let same_name : same_text n.node_id n'.node_id ≡ true =
            (eq_iff n.node_id n'.node_id).1 (ap (λ (x : NodeInfo). x.node_id) same) in
          rw (at_old n' key (registered key n' r), same_name, here) refl
      | inr apart ↦
          rw
            (at_old n' key (registered key n' r), apart, and_false (same_text n.node_id n'.node_id))
            (holds.home key n' r)
    ];
    alone = λ key n' other r h ne. elim (Bool-cases (d.docid == key)) [
      | inl here ↦
          let same_key : d.docid ≡ key = ground arith in
          let same : n ≡ n' = ok_same routed (rw same_key r) in
          let far : same_text n.node_id other.node_id ≡ false = rw same ne in
          rw (at_old other key h, far) (holds.alone key n' other r h ne)
      | inr apart ↦
          rw (at_old other key h, apart, and_false (same_text n.node_id other.node_id))
            (holds.alone key n' other r h ne)
    ];
  }

  -- What the new node has of a document after the write.
  at_new :
      (key : ℕ)
      → contains m.moved_vshards (shard meta key) ≡ true
      → calls.get e' m.new_node key
        ≡ (if d.docid == key then ok (some d.json) else calls.get e m.new_node key)
  at_new key moved = elim (Bool-cases (d.docid == key)) [
    | inl here ↦
        let same_key : d.docid ≡ key = ground arith in
        let same_name : same_text m.new_node m.new_node ≡ true =
          (eq_iff m.new_node m.new_node).1 refl in
        rw (wrote m.new_node key, same_key, moved, same_name, ==_refl key) refl
    | inr apart ↦
        rw
          (
            wrote m.new_node key,
            apart,
            and_false (same_text m.new_node m.new_node),
            and_false (contains m.moved_vshards (shard meta d.docid)),
            and_false (same_text n.node_id m.new_node),
          )
          refl
  ]

  pub wrote-HasCopy :
      (s : ℕ → Option String) (key : ℕ)
      → HasCopy calls meta m e s key
      → HasCopy calls meta m e' (write s d) key
  wrote-HasCopy s key has moved = elim (Bool-cases (d.docid == key)) [
    | inl here ↦ rw (at_new key moved, here) refl
    | inr apart ↦ rw (at_new key moved, apart) (has moved)
  ]

  pub wrote-IsCurrent :
      (s : ℕ → Option String) (key : ℕ)
      → IsCurrent calls meta m e s key
      → IsCurrent calls meta m e' (write s d) key
  wrote-IsCurrent s key current moved = elim (Bool-cases (d.docid == key)) [
    | inl here ↦ rw (at_new key moved, here) (inr refl)
    | inr apart ↦ rw (at_new key moved, apart) (current moved)
  ]
