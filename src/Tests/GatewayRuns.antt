-- ===== src/Tests/GatewayRuns.antt =====
-- A cluster of one node, and a second one that takes over one of the two shards.
use shanshui_cunji.Prelude.Sorting.{sort_by_key}
use shanshui_cunji.Meta.Router.{broadcast_targets}
use Prim.Native.String.{String}
use Prim.Native.Char.{code}
use text.Mathlib.TextEquality.{Char-path, eq_iff}
use shanshui_cunji.Prelude.{
  inl, inr, sym, ◌∙◌, lookup, ℕ, ◌<◌, ◌≡◌, refl, ap, List, [], ◌∷◌, ◌++◌, true, false, Mem, some,
  none, Option, arith, map, contains, insert,
}
use shanshui_cunji.Prelude.Texts.{same_text, text_get, has_text, text_put}
use shanshui_cunji.Tests.ShardRuns
use shanshui_cunji.Tests.ShardRuns.{owner_0, owner_1, old_owner}
use shanshui_cunji.Gateway.Local.HashRows.{Once}
use shanshui_cunji.Bytes.{Bytes}
use shanshui_cunji.Errors.{ok}
use shanshui_cunji.Meta.{NodeInfo, MetaCenter, node_ids, register, register_nodes}
use shanshui_cunji.Sharding.{hash64, new}
use shanshui_cunji.Sharding.Insertion.{insertion}
use shanshui_cunji.Sharding.Reshard.{compute_moved_vshards, moved_from, new_migration, is_migrating}
use shanshui_cunji.Gateway.Owners.{route_node-IsHome}
use shanshui_cunji.Gateway.Switch.{ok_same}
use shanshui_cunji.Gateway.Keeps.{Holds}
use shanshui_cunji.Gateway.{
  route_node, put_batch, group, put_groups, Gateway, new_gateway, put, put_to, shadow_put,
  virtual_shard_of, begin_migration, start_migration, catch_up, commit_migration,
}
use shanshui_cunji.Gateway.Run.{put_all, writes}
use shanshui_cunji.Gateway.Batch.{put_batch_lost}
use shanshui_cunji.Gateway.Writes.{shard}
use shanshui_cunji.Gateway.Lossless.{migration_lossless}
use shanshui_cunji.Sharding.Reshard.Moved.{IsSettled}
use shanshui_cunji.Gateway
use shanshui_cunji.Gateway.Endpoint.{Document}
use shanshui_cunji.Gateway.Local.{
  LocalShardEndpoint, MemShard, default_shard, put_doc, get, add_node, put as local_put, scan_all,
  put_batch as local_batch,
}
use shanshui_cunji.Gateway.Local.Laws.{local_endpoint}

-- The bytes of a name in ASCII.
codes : String → Bytes
codes String.[] = []
codes (String.◌∷◌ c s) = code c ∷ codes s

abbrev cluster_a : MetaCenter
cluster_a = record {
  nodes = record { node_id = "a"; addr = "127.0.0.1:1"; role = "master" } ∷ [];
  virtual_shards = 2;
}

nil_cons : {x : ℕ} {xs : Bytes} → [] ≡ x ∷ xs → ⊥
nil_cons h = cc

codes_injective : (a b : String) → codes a ≡ codes b → a ≡ b
unfolding codes
codes_injective String.[] String.[] h = refl
codes_injective String.[] (String.◌∷◌ d t) h = absurd (nil_cons h)
codes_injective (String.◌∷◌ c s) String.[] h = absurd (nil_cons (sym h))
codes_injective (String.◌∷◌ c s) (String.◌∷◌ d t) h =
    let head : code c ≡ code d = cc in
    let tail : codes s ≡ codes t = cc in
    λ i. String.◌∷◌ (Char-path c d head i) (codes_injective s t tail i)

abbrev node_a : NodeInfo
node_a = record { node_id = "a"; addr = "127.0.0.1:1"; role = "master" }

-- Whatever the document, it is at the only node.
only_home : (key : ℕ) (n : NodeInfo) → route_node insertion codes cluster_a key ≡ ok n → n ≡ node_a
only_home key n h =
    let (n', r, home) =
      route_node-IsHome insertion codes cluster_a key (omega arith) (omega arith) in
    let same : n' ≡ n = ok_same r h in
    elim home.registered [ inl e ↦ sym same ∙ sym e | inr m ↦ elim m [ ] ]

routed_home : (key : ℕ) → route_node insertion codes cluster_a key ≡ ok node_a
routed_home key =
    let (n, r, home) =
      route_node-IsHome insertion codes cluster_a key (omega arith) (omega arith) in
    r ∙ ap ok (only_home key n r)

start-Once : Once ((2, "x") ∷ ((1, "y") ∷ []))
unfolding lookup
start-Once = (refl, (refl, tt))

abbrev shard_a : MemShard
shard_a = record { docs = (2, "x") ∷ ((1, "y") ∷ []); once = start-Once; postings = [] }

abbrev at_start : LocalShardEndpoint
at_start = ("a", shard_a) ∷ []

abbrev g0 : Gateway LocalShardEndpoint
g0 = record { meta = cluster_a; endpoint = at_start; migration = none }

abbrev start : ℕ → Option String
start key = lookup key ((2, "x") ∷ ((1, "y") ∷ []))

alone_here :
    (n other : NodeInfo)
    → n ≡ node_a
    → Mem other cluster_a.nodes
    → same_text n.node_id other.node_id ≡ false
    → ⊥
alone_here n other e (inl q) ne =
    let same : n.node_id ≡ other.node_id = ap (λ (x : NodeInfo). x.node_id) (e ∙ q) in
    let yes' : same_text n.node_id other.node_id ≡ true = (eq_iff n.node_id other.node_id).1 same in
    cc
alone_here n other e (inr m) ne = elim m [ ]

start-Holds : Holds insertion codes local_endpoint cluster_a at_start start
unfolding local_endpoint get text_get
start-Holds = record {
  home = λ key n r. rw (only_home key n r) refl;
  alone = λ key n other r h ne. absurd (alone_here n other (only_home key n r) h ne);
}

-- The new node takes shard 0 over, and shard 1 stays.
moved_set :
    compute_moved_vshards insertion
      (ShardRuns.node_a ∷ [])
      (ShardRuns.node_a ∷ (ShardRuns.node_b ∷ []))
      2
    ≡ ok (0 ∷ [])
unfolding compute_moved_vshards moved_from new
moved_set = rw (old_owner 0, old_owner 1, owner_0, owner_1) refl

abbrev two : String → Document
two text = record { docid = 2; json = text; terms = [] }

abbrev one : String → Document
one text = record { docid = 1; json = text; terms = [] }

abbrev moving : MemShard → MemShard → Gateway LocalShardEndpoint
moving a b = record {
  meta = cluster_a;
  endpoint = ("a", a) ∷ (("b", b) ∷ []);
  migration = some (new_migration "b" "127.0.0.1:2" "slave" (0 ∷ []));
}

abbrev g1 : Gateway LocalShardEndpoint
g1 = moving shard_a default_shard

abbrev g2 : Gateway LocalShardEndpoint
g2 = moving (put_doc (two "z") shard_a) (put_doc (two "z") default_shard)

abbrev g3 : Gateway LocalShardEndpoint
g3 = moving (put_doc (two "z") shard_a) (put_doc (two "z") (put_doc (two "z") default_shard))

abbrev g4 : Gateway LocalShardEndpoint
g4 =
    moving (put_doc (one "w") (put_doc (two "z") shard_a))
      (put_doc (two "z") (put_doc (two "z") default_shard))

abbrev no_terms : String → List String
no_terms json = []

begun : begin_migration insertion codes local_endpoint "b" "127.0.0.1:2" "slave" g0 ≡ (ok 1, g1)
unfolding begin_migration codes start_migration has_text node_ids local_endpoint add_node text_get
    text_put
begun = rw moved_set refl

wrote_two : put_all insertion codes local_endpoint g1 (two "z" ∷ []) ≡ (ok tt, g2)
unfolding put_all put put_to shadow_put is_migrating virtual_shard_of hash64 new_migration
    local_endpoint local_put text_get text_put
wrote_two = rw (routed_home 2) refl

caught_up : catch_up local_endpoint no_terms g2 ≡ (ok 1, g3)
unfolding catch_up broadcast_targets new_migration local_endpoint scan_all text_get sort_by_key
    put_doc insert virtual_shard_of hash64 local_put text_put
caught_up = refl

wrote_one : put_all insertion codes local_endpoint g3 (one "w" ∷ []) ≡ (ok tt, g4)
unfolding put_all put put_to shadow_put is_migrating virtual_shard_of hash64 new_migration
    local_endpoint local_put text_get text_put
wrote_one = rw (routed_home 1) refl

abbrev g5 : Gateway LocalShardEndpoint
g5 = record g4 {
  meta = record cluster_a {
    nodes = node_a ∷ (record { node_id = "b"; addr = "127.0.0.1:2"; role = "slave" } ∷ []);
  };
  migration = none;
}

committed : commit_migration g4 ≡ (ok 1, g5)
unfolding commit_migration register new_migration register_nodes
committed = refl

nothing_at_b : (key : ℕ) → local_endpoint.get g1.endpoint "b" key ≡ ok none
unfolding local_endpoint get text_get lookup
nothing_at_b key = refl

grown-IsSettled :
    (v : ℕ) → v < 2 → IsSettled (map (λ n. codes n.node_id) cluster_a.nodes ++ (codes "b" ∷ [])) v
unfolding codes map
grown-IsSettled v h = ShardRuns.settled v h

migration_lossless_example :
    Gateway.get insertion codes local_endpoint g5 2
    ≡ ok (writes (writes start (two "z" ∷ [])) (one "w" ∷ []) 2)
migration_lossless_example =
    migration_lossless insertion codes local_endpoint no_terms "b" "127.0.0.1:2" "slave" g0 g1 g2 g3
      g4 g5 start (two "z" ∷ []) (one "w" ∷ []) 1 1 1 codes_injective (omega arith) (omega arith)
      grown-IsSettled start-Holds nothing_at_b begun wrote_two caught_up wrote_one committed 2

abbrev g6 : Gateway LocalShardEndpoint
g6 =
    moving (put_doc (two "lost") (put_doc (two "z") shard_a))
      (put_doc (two "z") (put_doc (two "z") default_shard))

abbrev g7 : Gateway LocalShardEndpoint
g7 = record g6 { meta = g5.meta; migration = none }

batch_ok : put_batch insertion codes local_endpoint g3 (two "lost" ∷ []) ≡ (ok (("a", 1) ∷ []), g6)
unfolding put_batch group put_groups local_endpoint text_put text_get put_doc local_batch
batch_ok = rw (routed_home 2) refl

batch_committed : commit_migration g6 ≡ (ok 1, g7)
unfolding commit_migration register new_migration register_nodes
batch_committed = refl

moved_set_ab :
    compute_moved_vshards insertion
      (map codes (node_ids cluster_a))
      (map codes (node_ids cluster_a ++ ("b" ∷ [])))
      2
    ≡ ok (0 ∷ [])
unfolding codes node_ids map
moved_set_ab = moved_set

two_moved : contains (0 ∷ []) (shard cluster_a 2) ≡ true
unfolding hash64
two_moved = refl

unknown_b : has_text "b" (node_ids cluster_a) ≡ false
unfolding has_text node_ids
unknown_b = refl

mig_3 : g3.migration ≡ some (new_migration "b" "127.0.0.1:2" "slave" (0 ∷ []))
mig_3 = refl

held_3 : local_endpoint.get g3.endpoint "b" 2 ≡ ok (some "z")
unfolding local_endpoint get text_get lookup put_doc insert
held_3 = refl

-- The batch wrote "lost", and "z" is read.
put_batch_lost_example : Gateway.get insertion codes local_endpoint g7 2 ≡ ok (some "z")
put_batch_lost_example =
    put_batch_lost insertion codes local_endpoint "b" "127.0.0.1:2" "slave" g3 g6 g7 (0 ∷ []) 2
      (some "z") (two "lost" ∷ []) (("a", 1) ∷ []) 1 codes_injective (omega arith) (omega arith)
      grown-IsSettled unknown_b moved_set_ab mig_3 two_moved held_3 batch_ok batch_committed
