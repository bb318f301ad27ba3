-- ===== src/ScaleOut/Phases.antt =====
-- The phases go forward one by one, terminal phases stay, and the state file follows.
use Prim.Native.String.{String}
use shanshui_cunji.Prelude.{◌≡◌, refl, Bool, true, false, Option, some, arith}
use shanshui_cunji.Errors.{ok, err, unsupported, io}
use shanshui_cunji.Meta.{MetaCenter, register}
use shanshui_cunji.ScaleOut.{
  Phase, adding, catch_up, drain, switching, done, rolled_back, is_terminal, ScaleOutState,
  ScaleOutCoordinator, Outcome, allowed, advance, resume, begin_catch_up, mark_drained, switch,
  rollback,
}

-- The calls a client can make, with the outcomes of the writes that they make.
pub data Call : Type 0 where
  call_catch_up call_drained : Bool → Call
  call_switch : Bool → Bool → Call
  call_rollback : Bool → Call

unfoldable pub run : Call → ScaleOutCoordinator → Outcome
run (call_catch_up w) c = begin_catch_up w c
run (call_drained w) c = mark_drained w c
run (call_switch w w') c = switch w w' c
run (call_rollback w) c = rollback w c

-- The phases that one call may lead to. No call leads from `switching` to `done`.
unfoldable pub may_follow : Phase → Phase → Bool
may_follow adding adding = true
may_follow adding catch_up = true
may_follow adding rolled_back = true
may_follow catch_up catch_up = true
may_follow catch_up drain = true
may_follow catch_up rolled_back = true
may_follow drain drain = true
may_follow drain switching = true
may_follow drain done = true
may_follow drain rolled_back = true
may_follow switching switching = true
may_follow switching rolled_back = true
may_follow done done = true
may_follow rolled_back rolled_back = true
may_follow _ _ = false

pub register_master :
    (m : MetaCenter) (node_id addr : String) → (register m node_id addr "master").0 ≡ ok tt
unfolding register
register_master m node_id addr = refl

-- Each call at a phase that is known.
module _ (s t : String) (m : MetaCenter) (disk : Option ScaleOutState) where
  abbrev at_phase : Phase → ScaleOutCoordinator
  at_phase p = record {
    state = record { phase = p; source = s; target = t };
    meta = m;
    disk = disk;
  }

  run-at_phase :
      (call : Call) (p : Phase) → may_follow p (run call (at_phase p)).1.state.phase ≡ true
  unfolding run begin_catch_up mark_drained switch rollback advance is_terminal allowed may_follow
  run-at_phase (call_catch_up w) p = ground arith
  run-at_phase (call_drained w) p = ground arith
  run-at_phase (call_switch true w') drain = ground (arith, register_master m t "")
  run-at_phase (call_switch false w') drain = refl
  run-at_phase (call_switch w w') p = ground arith
  run-at_phase (call_rollback w) p = ground (arith, register_master m s "")

-- One call of any kind, whatever the outcomes of its writes, keeps the phase or takes it one step
-- along adding, catch_up, drain, done; it may end a switch half way in `switching`, which only a
-- rollback leaves, and roll back from any phase but the terminal two, which nothing leaves.
pub run-may_follow :
    (call : Call) (c : ScaleOutCoordinator)
    → may_follow c.state.phase (run call c).1.state.phase ≡ true
run-may_follow call c = run-at_phase c.state.source c.state.target c.meta c.disk call c.state.phase

-- The state file holds what a restart reads back.
abbrev pub IsSaved : ScaleOutCoordinator → Type 0
IsSaved c = c.disk ≡ some c.state

run-IsSaved :
    (s t : String) (m : MetaCenter) (disk : Option ScaleOutState) (call : Call) (p : Phase)
    → IsSaved (at_phase s t m disk p)
    → (run call (at_phase s t m disk p)).0 ≡ ok tt
    → IsSaved (run call (at_phase s t m disk p)).1
unfolding run begin_catch_up mark_drained switch rollback advance is_terminal allowed
run-IsSaved s t m disk (call_catch_up w) p d e = ground arith
run-IsSaved s t m disk (call_drained w) p d e = ground arith
run-IsSaved s t m disk (call_switch w w') p d e = ground (arith, register_master m t "")
run-IsSaved s t m disk (call_rollback w) p d e = ground (arith, register_master m s "")

-- After a call that returned Ok, a restart with the node list that the call left resumes the very
-- coordinator that the call left, if the file was up to date before it.
pub resume-run :
    (call : Call) (c : ScaleOutCoordinator)
    → IsSaved c
    → (run call c).0 ≡ ok tt
    → resume (run call c).1.disk (run call c).1.meta ≡ ok (run call c).1
unfolding resume
resume-run call c saved e =
    let after : IsSaved (run call c).1 =
      run-IsSaved c.state.source c.state.target c.meta c.disk call c.state.phase saved e in
    ground (arith, after)

-- A switch from `drain` whose second write fails leaves a file from which no later switch succeeds: the resumed
-- coordinator is in `switching`, refuses every call but a rollback, and stays as it is.
pub switch_cut_short :
    (c : ScaleOutCoordinator) (w w' : Bool)
    → c.state.phase ≡ drain
    → ((switch true false c).0 ≡ err io)
      × (c' : ScaleOutCoordinator) × (resume
            (switch true false c).1.disk
            (switch true false c).1.meta
          ≡ ok c')
      × (c'.state.phase ≡ switching)
      × (switch w w' c' ≡ (err unsupported, c'))
      × (begin_catch_up w c' ≡ (err unsupported, c'))
      × (mark_drained w c' ≡ (err unsupported, c'))
unfolding switch begin_catch_up mark_drained advance is_terminal allowed resume
switch_cut_short c w w' e =
    let half : ScaleOutState = record {
      phase = switching;
      source = c.state.source;
      target = c.state.target;
    } in
    (
      ground (arith, register_master c.meta c.state.target ""),
      record { state = half; meta = (switch true false c).1.meta; disk = some half },
      ground (arith, register_master c.meta c.state.target ""),
      refl,
      refl,
      refl,
      refl,
    )
