-- ===== src/ScaleOut/Routing.antt =====
-- Who takes the writes after a switch or a rollback.
use text.Mathlib.Text.{◌==◌}
use shanshui_cunji.Prelude.{◌≡◌, Bool, true, false, some, arith, any}
use shanshui_cunji.Errors.{ok}
use shanshui_cunji.Meta.{named, register, register_nodes, unregister, master_node}
use shanshui_cunji.Meta.Master.{OnlyMasters, find_master-takeover}
use shanshui_cunji.ScaleOut.{is_terminal, ScaleOutCoordinator, switch, rollback, advance}

-- After a switch that returned Ok the new node is the master, if it was registered, every
-- master was one of the two nodes and their names differ; the new master's address is empty then.
pub switch_master :
    (c : ScaleOutCoordinator) (w w' : Bool)
    → (c.state.source == c.state.target) ≡ false
    → any (named c.state.target) c.meta.nodes ≡ true
    → OnlyMasters c.state.source c.state.target c.meta.nodes
    → (switch w w' c).0 ≡ ok tt
    → master_node (switch w w' c).1.meta
      ≡ some (record { node_id = c.state.target; addr = ""; role = "master" })
unfolding switch advance register unregister register_nodes master_node
switch_master c w w' ne known only e =
    ground (arith, find_master-takeover c.meta.nodes c.state.source c.state.target "" ne known only)

-- After a rollback from a phase that is not terminal the old node is the master, if it is registered,
-- every master is one of the two nodes and their names differ; its address is empty then.
pub rollback_master :
    (c : ScaleOutCoordinator) (w : Bool)
    → is_terminal c.state.phase ≡ false
    → (c.state.target == c.state.source) ≡ false
    → any (named c.state.source) c.meta.nodes ≡ true
    → OnlyMasters c.state.target c.state.source c.meta.nodes
    → master_node (rollback w c).1.meta
      ≡ some (record { node_id = c.state.source; addr = ""; role = "master" })
unfolding rollback register unregister register_nodes master_node
rollback_master c w live ne known only =
    ground (arith, find_master-takeover c.meta.nodes c.state.target c.state.source "" ne known only)
