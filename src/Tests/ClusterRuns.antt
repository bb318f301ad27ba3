-- ===== src/Tests/ClusterRuns.antt =====
-- A move from the node n1 to the node n2.
use shanshui_cunji.Prelude.{◌≡◌, refl, true, false, arith, some, [], ◌∷◌}
use shanshui_cunji.Errors.{ok, err, io, unsupported}
use shanshui_cunji.Meta.{MetaCenter, master_node, register}
use shanshui_cunji.ScaleOut.{
  ScaleOutState, ScaleOutCoordinator, adding, drain, switching, is_terminal, resume, begin_catch_up,
  mark_drained, switch, advance, allowed, is_terminal,
}
use shanshui_cunji.ScaleOut.Phases.{
  call_catch_up, call_switch, run, may_follow, run-may_follow, resume-run, switch_cut_short,
}
use shanshui_cunji.ScaleOut.Routing.{switch_master}

abbrev two_nodes : MetaCenter
two_nodes = record {
  nodes =
      (record { node_id = "n1"; addr = "a1"; role = "master" })
      ∷ (record { node_id = "n2"; addr = "a2"; role = "slave" })
      ∷ [];
  virtual_shards = 64;
}

abbrev added_state : ScaleOutState
added_state = record { phase = adding; source = "n1"; target = "n2" }

abbrev added : ScaleOutCoordinator
added = record { state = added_state; meta = two_nodes; disk = some added_state }

abbrev drained_state : ScaleOutState
drained_state = record { phase = drain; source = "n1"; target = "n2" }

abbrev drained : ScaleOutCoordinator
drained = record { state = drained_state; meta = two_nodes; disk = some drained_state }

run-may_follow_example : may_follow drain (run (call_switch true true) drained).1.state.phase ≡ true
run-may_follow_example = run-may_follow (call_switch true true) drained

resume-run_example :
    resume (run (call_catch_up true) added).1.disk (run (call_catch_up true) added).1.meta
    ≡ ok (run (call_catch_up true) added).1
unfolding run begin_catch_up advance is_terminal allowed
resume-run_example = resume-run (call_catch_up true) added refl refl

switch_cut_short_example :
    ((switch true false drained).0 ≡ err io)
    × (c' : ScaleOutCoordinator) × (resume
          (switch true false drained).1.disk
          (switch true false drained).1.meta
        ≡ ok c')
    × (c'.state.phase ≡ switching)
    × (switch true true c' ≡ (err unsupported, c'))
    × (begin_catch_up true c' ≡ (err unsupported, c'))
    × (mark_drained true c' ≡ (err unsupported, c'))
switch_cut_short_example = switch_cut_short drained true true refl

switch_master_example :
    master_node (switch true true drained).1.meta
    ≡ some (record { node_id = "n2"; addr = ""; role = "master" })
unfolding switch advance is_terminal allowed register
switch_master_example =
    switch_master drained true true refl refl ((λ e. refl), ((λ e. ground arith), tt)) refl
