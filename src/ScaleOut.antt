-- ===== src/ScaleOut.antt =====
-- src/scale_out.rs: the coordinator that moves writes from one node to a new one. Whether a write of
-- the state file succeeds is an argument of each operation that makes one; the file is what the
-- last success left. JSON is taken to give back the state that was written.
pub mod Phases
pub mod Routing
use Prim.Native.String.{String}
use shanshui_cunji.Prelude.{Bool, true, false, not, Option, none, some, if◌then◌else◌}
use shanshui_cunji.Errors.{Result, ok, err, panic, unsupported, corrupted, io, ◌>>=◌}
use shanshui_cunji.Meta.{MetaCenter, NodeInfo, register, unregister, master_node, map_node}

pub data Phase : Type 0 where
  adding catch_up drain switching done rolled_back : Phase

unfoldable pub is_terminal : Phase → Bool
is_terminal done = true
is_terminal rolled_back = true
is_terminal _ = false

pub record ScaleOutState : Type 0 where
  pub phase : Phase
  pub source : String
  pub target : String

pub record ScaleOutCoordinator : Type 0 where
  pub state : ScaleOutState
  pub meta : MetaCenter
  pub disk : Option ScaleOutState

abbrev pub Outcome : Type 0
Outcome = Result (Unit {0}) × ScaleOutCoordinator

-- One more step only if the last one returned `Ok`; the state stays as the failed step left it.
infixl 5 ◌then_do◌
abbrev pub ◌then_do◌ : Outcome → (ScaleOutCoordinator → Outcome) → Outcome
(ok u, c) then_do f = f c
(err e, c) then_do f = (err e, c)
(panic, c) then_do f = (panic, c)

unfoldable pub persist : Bool → ScaleOutCoordinator → Outcome
persist true c = (ok tt, record c { disk = some c.state })
persist false c = (err io, c)

unfoldable pub set_phase : ScaleOutCoordinator → Phase → ScaleOutCoordinator
set_phase c p = record c { state = record c.state { phase = p } }

unfoldable pub update_meta :
    (MetaCenter → Result (Unit {0}) × MetaCenter) → ScaleOutCoordinator → Outcome
update_meta f c = let (r, m) = f c.meta in (r, record c { meta = m })

unfoldable pub drop_node : String → ScaleOutCoordinator → ScaleOutCoordinator
drop_node node_id c = record c { meta = (unregister c.meta node_id).1 }

unfoldable pub allowed : Phase → Phase → Bool
allowed adding catch_up = true
allowed catch_up drain = true
allowed drain switching = true
allowed switching done = true
allowed _ rolled_back = true
allowed _ _ = false

unfoldable pub advance : Bool → ScaleOutCoordinator → Phase → Outcome
unfolding set_phase persist
advance written c target =
    if is_terminal c.state.phase
    then (err unsupported, c)
    else if not (allowed c.state.phase target)
    then (err unsupported, c)
    else persist written (set_phase c target)

unfoldable pub begin :
    Bool → Option ScaleOutState → MetaCenter → String → String → String → Result ScaleOutCoordinator
begin written disk meta source target target_addr =
    let (r, m) = register meta target target_addr "slave" in
    let c : ScaleOutCoordinator = record {
      state = record { phase = adding; source = source; target = target };
      meta = m;
      disk = disk;
    } in
    r >>= λ _. let (p, c') = persist written c in p >>= λ _. ok c'

abbrev pub resume_from : Option ScaleOutState → MetaCenter → Result ScaleOutCoordinator
resume_from none meta = err corrupted
resume_from (some s) meta = ok (record { state = s; meta = meta; disk = some s })

unfoldable pub resume : Option ScaleOutState → MetaCenter → Result ScaleOutCoordinator
resume disk meta = resume_from disk meta

unfoldable pub begin_catch_up : Bool → ScaleOutCoordinator → Outcome
begin_catch_up written c = advance written c catch_up

unfoldable pub mark_drained : Bool → ScaleOutCoordinator → Outcome
mark_drained written c = advance written c drain

-- The two arguments are the outcomes of the two writes of the state file.
unfoldable pub switch : Bool → Bool → ScaleOutCoordinator → Outcome
unfolding update_meta drop_node
switch written written' c =
    advance written c switching
    then_do (λ c. update_meta (λ m. register m c.state.target "" "master") c)
    then_do (λ c. advance written' (drop_node c.state.source c) done)

unfoldable pub rollback : Bool → ScaleOutCoordinator → Outcome
unfolding update_meta drop_node set_phase persist
rollback written c =
    if is_terminal c.state.phase
    then (ok tt, c)
    else update_meta (λ m. register m c.state.source "" "master") c
      then_do (λ c. persist written (set_phase (drop_node c.state.target c) rolled_back))

unfoldable pub master_name : ScaleOutCoordinator → Option String
master_name c = map_node (λ n. n.node_id) (master_node c.meta)
