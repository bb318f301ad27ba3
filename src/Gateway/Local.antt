-- ===== src/Gateway/Local.antt =====
-- src/gateway.rs: the endpoint whose nodes are in the process. A hash map is a list with each key once.
pub mod HashRows
pub mod Laws
use Prim.Native.String.{String}
use text.Mathlib.TextEquality.{eq_iff}
use shanshui_cunji.Prelude.{
  ℕ, ◌^◌, ◌%◌, ◌≡◌, ◌↔◌, refl, sym, ap, ◌∙◌, List, [], ◌∷◌, ◌++◌, Bool, true, false, ◌&&◌, Option,
  none, some, if◌then◌else◌, ◌==◌, contains, Mem, arith, Bool-cases, Option-cases, inl, inr, Map,
  lookup, insert, lookup-insert, is_some,
}
use shanshui_cunji.Prelude.Texts.{same_text, TextMap, text_get, text_put, text_get-put}
use shanshui_cunji.Prelude.Sorting.{sort_by_key, sort_by_key-Mem}
use shanshui_cunji.Errors.{Result, ok, err, cluster}
use shanshui_cunji.Gateway.Endpoint.{ShardEndpoint, Document, and_then}
use shanshui_cunji.Gateway.Local.HashRows.{Rows, Once, insert-Once, Mem-lookup, lookup-Mem}

pub record MemShard : Type 0 where
  pub docs : Rows
  pub once : Once docs
  pub postings : TextMap (List ℕ)

abbrev pub LocalShardEndpoint : Type 0
LocalShardEndpoint = TextMap MemShard

abbrev pub default_shard : MemShard
default_shard = record { docs = []; once = tt; postings = [] }

unfoldable pub with_nodes : List String → LocalShardEndpoint
with_nodes [] = []
with_nodes (n ∷ ns) = text_put n default_shard (with_nodes ns)

abbrev pub ids_of : Option (List ℕ) → List ℕ
ids_of none = []
ids_of (some ids) = ids

-- The document's number is cut to 32 bits in the postings.
unfoldable pub add_terms : ℕ → List String → TextMap (List ℕ) → TextMap (List ℕ)
add_terms docid [] postings = postings
add_terms docid (t ∷ ts) postings =
    let list = ids_of (text_get t postings) in
    let d = docid % 2 ^ 32 in
    add_terms docid ts (text_put t (if contains list d then list else list ++ (d ∷ [])) postings)

unfoldable pub put_doc : Document → MemShard → MemShard
unfolding add_terms
put_doc d shard = record {
  docs = insert d.docid d.json shard.docs;
  once = insert-Once d.docid d.json shard.docs shard.once;
  postings = add_terms d.docid d.terms shard.postings;
}

unfoldable pub put_at :
    Option MemShard
    → String
    → Document
    → LocalShardEndpoint
    → Result (Unit {0}) × LocalShardEndpoint
unfolding put_doc
put_at none node d e = (err cluster, e)
put_at (some shard) node d e = (ok tt, text_put node (put_doc d shard) e)

unfoldable pub put : LocalShardEndpoint → String → Document → Result (Unit {0}) × LocalShardEndpoint
unfolding put_at
put e node d = put_at (text_get node e) node d e

-- The trait's own definition, one document after the other.
unfoldable pub put_batch :
    LocalShardEndpoint → String → List Document → Result (Unit {0}) × LocalShardEndpoint
unfolding put
put_batch e node [] = (ok tt, e)
put_batch e node (d ∷ ds) = and_then (put e node d) (λ u e1. put_batch e1 node ds)

abbrev pub doc_in : ℕ → Option MemShard → Result (Option String)
doc_in docid none = err cluster
doc_in docid (some shard) = ok (lookup docid shard.docs)

unfoldable pub get : LocalShardEndpoint → String → ℕ → Result (Option String)
get e node docid = doc_in docid (text_get node e)

abbrev pub ids_in : String → Option MemShard → Result (List ℕ)
ids_in term none = err cluster
ids_in term (some shard) = ok (ids_of (text_get term shard.postings))

unfoldable pub search_docids : LocalShardEndpoint → String → String → Result (List ℕ)
search_docids e node term = ids_in term (text_get node e)

abbrev pub rows_of : Option MemShard → Result Rows
rows_of none = err cluster
rows_of (some shard) = ok (sort_by_key shard.docs)

unfoldable pub scan_all : LocalShardEndpoint → String → Result Rows
scan_all e node = rows_of (text_get node e)

unfoldable pub ping : LocalShardEndpoint → String → Result (Unit {0})
ping e node = if is_some (text_get node e) then ok tt else err cluster

unfoldable pub add_node :
    LocalShardEndpoint → String → Option String → Result (Unit {0}) × LocalShardEndpoint
add_node e node addr =
    (ok tt, if is_some (text_get node e) then e else text_put node default_shard e)
