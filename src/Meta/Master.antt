-- ===== src/Meta/Master.antt =====
-- Who is the master after a node takes over.
use Prim.Native.String.{String}
use text.Mathlib.Text.{◌==◌}
use text.Mathlib.TextEquality.{eq_iff}
use shanshui_cunji.Prelude.{
  ◌≡◌, true, false, not, some, List, [], ◌∷◌, arith, find, retain, any, ◌||◌, All, Bool-cases, inl,
  inr,
}
use shanshui_cunji.Meta.{NodeInfo, is_master, named, update_node}

-- Every master is one of the two nodes.
abbrev pub OnlyMasters : String → String → List NodeInfo → Type 0
OnlyMasters a b = All (λ n. is_master n ≡ true → (named a n || named b n) ≡ true)

-- The node `target` becomes master and `source` goes: `target` is the first master left.
pub find_master-takeover :
    (ns : List NodeInfo) (source target addr : String)
    → (source == target) ≡ false
    → any (named target) ns ≡ true
    → OnlyMasters source target ns
    → find is_master (retain (λ n. not (named source n)) (update_node target addr "master" ns))
      ≡ some (record { node_id = target; addr = addr; role = "master" })
unfolding update_node
find_master-takeover [] source target addr ne h o = cc
find_master-takeover (n ∷ ns) source target addr ne h (o, os) = elim (Bool-cases (named target n)) [
  | inl here ↦
      ground (arith, eq_iff n.node_id target, eq_iff n.node_id source, eq_iff source target)
  | inr later ↦ ground (arith, find_master-takeover ns source target addr ne (ground arith) os)
]
