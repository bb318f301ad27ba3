-- ===== src/Meta.antt =====
-- src/meta.rs: the cluster's nodes and their roles. The order of the nodes is kept, since broadcasts
-- and the choice of the master read it. The child module Router routes by the hash ring.
pub mod Master
pub mod Router
use Prim.Native.String.{String}
use text.Mathlib.Text.{◌==◌}
use shanshui_cunji.Prelude.{
  ℕ, Bool, true, false, not, ◌||◌, Option, none, some, List, [], ◌∷◌, ◌++◌, if◌then◌else◌, length,
  find, retain, any, map,
}
use shanshui_cunji.Errors.{Result, ok, err, cluster}

pub record NodeInfo : Type 0 where
  pub node_id : String
  pub addr : String
  pub role : String

pub record MetaCenter : Type 0 where
  pub nodes : List NodeInfo
  pub virtual_shards : ℕ

unfoldable pub new_meta : ℕ → MetaCenter
new_meta virtual_shards = record { nodes = []; virtual_shards = virtual_shards }

abbrev pub is_master : NodeInfo → Bool
is_master n = n.role == "master"

abbrev pub named : String → NodeInfo → Bool
named node_id n = n.node_id == node_id

-- The first node of the name is rewritten in place.
unfoldable pub update_node : String → String → String → List NodeInfo → List NodeInfo
update_node node_id addr role [] = []
update_node node_id addr role (n ∷ ns) =
    let rest = update_node node_id addr role ns in
    if n.node_id == node_id then (record n { addr = addr; role = role }) ∷ ns else n ∷ rest

-- The stable sort by the key 0 for masters and 1 for others.
unfoldable pub masters_first : List NodeInfo → List NodeInfo
masters_first ns = retain is_master ns ++ retain (λ n. not (is_master n)) ns

unfoldable pub register_nodes : String → String → String → List NodeInfo → List NodeInfo
unfolding update_node masters_first
register_nodes node_id addr role ns =
    if any (named node_id) ns
    then update_node node_id addr role ns
    else masters_first (ns ++ (record { node_id = node_id; addr = addr; role = role } ∷ []))

abbrev pub valid_role : String → Bool
valid_role role = (role == "master") || (role == "slave")

unfoldable pub register : MetaCenter → String → String → String → Result (Unit {0}) × MetaCenter
register m node_id addr role =
    if valid_role role
    then (ok tt, record m { nodes = register_nodes node_id addr role m.nodes })
    else (err cluster, m)

-- The answer says whether a node went.
unfoldable pub unregister : MetaCenter → String → Bool × MetaCenter
unregister m node_id =
    (any (named node_id) m.nodes, record m { nodes = retain (λ n. not (named node_id n)) m.nodes })

unfoldable pub node_ids : MetaCenter → List String
node_ids m = map (λ n. n.node_id) m.nodes

unfoldable pub node_count : MetaCenter → ℕ
node_count m = length m.nodes

abbrev pub map_node : (NodeInfo → String) → Option NodeInfo → Option String
map_node f none = none
map_node f (some n) = some (f n)

unfoldable pub node_addr : MetaCenter → String → Option String
node_addr m node_id = map_node (λ n. n.addr) (find (named node_id) m.nodes)

abbrev pub first : List NodeInfo → Option NodeInfo
first [] = none
first (n ∷ ns) = some n

abbrev pub or_first : Option NodeInfo → List NodeInfo → Option NodeInfo
or_first (some n) ns = some n
or_first none ns = first ns

unfoldable pub master_node : MetaCenter → Option NodeInfo
master_node m = or_first (find is_master m.nodes) m.nodes

abbrev pub slave_role : Option NodeInfo → Bool
slave_role none = false
slave_role (some n) = n.role == "slave"

unfoldable pub is_slave : MetaCenter → String → Bool
is_slave m node_id = slave_role (find (named node_id) m.nodes)
