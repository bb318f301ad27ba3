-- ===== src/Saga.antt =====
-- src/saga.rs: transactions of several steps with compensation. A call passes the coordinator on; in
-- it are the outcomes of the state files' writes still to come, the time, and the world `B` that the
-- steps act on. Parallel layers, retries, HTTP steps and the reading of the directory are left out.
pub mod Atomic
pub mod Repeat
pub mod Undo
use Prim.Native.String.{String}
use text.Mathlib.Text.{◌==◌}
use shanshui_cunji.Prelude.{
  ℕ, zero, suc, ◌+◌, ◌-◌, Bool, true, false, not, ◌&&◌, ◌||◌, Option, none, some, List, [], ◌∷◌,
  ◌++◌, if◌then◌else◌, reverse, is_some,
}
use shanshui_cunji.Prelude.Texts.{has_text, TextMap, text_get, text_put}
use shanshui_cunji.Errors.{Error, config, io, Result, ok, err, panic}

pub data SagaStatus : Type 0 where
  init executing succeeded failed compensating compensated : SagaStatus

unfoldable pub is_terminal : SagaStatus → Bool
is_terminal succeeded = true
is_terminal compensated = true
is_terminal _ = false

-- The texts of `last_error`.
pub data LastError : Type 0 where
  failed_with : Error → LastError
  no_compensation : String → LastError
  stalled_forward : LastError

pub record SagaState : Type 0 where
  pub tx_id : String
  pub status : SagaStatus
  pub executed_steps : List String
  pub compensated_steps : List String
  pub last_error : Option LastError
  pub retry_count : ℕ
  pub last_retry_at_ms : Option ℕ
  pub updated_at_ms : ℕ

unfoldable pub new_state : ℕ → String → SagaState
new_state now tx_id = record {
  tx_id = tx_id;
  status = init;
  executed_steps = [];
  compensated_steps = [];
  last_error = none;
  retry_count = 0;
  last_retry_at_ms = none;
  updated_at_ms = now;
}

pub record SagaStep (B : Type 0) : Type 0 where
  pub name : String
  pub forward : B → Result (Unit {0}) × B
  pub compensate : B → Result (Unit {0}) × B

-- `writes` are the outcomes of the next writes; where it ends, they succeed.
pub record SagaCoordinator (B : Type 0) : Type 0 where
  pub states : TextMap SagaState
  pub writes : List Bool
  pub now : ℕ
  pub world : B

abbrev pub M : Type 0 → Type 0 → Type 0
M B A = SagaCoordinator B → Result A × SagaCoordinator B

abbrev pub rest_writes : List Bool → List Bool
rest_writes [] = []
rest_writes (w ∷ ws) = ws

abbrev pub next_write : List Bool → Bool
next_write [] = true
next_write (w ∷ ws) = w

-- One more name in a set.
abbrev pub text_insert : String → List String → List String
text_insert t ts = if has_text t ts then ts else t ∷ ts

abbrev pub or_new : ℕ → String → Option SagaState → SagaState
or_new now tx_id none = new_state now tx_id
or_new now tx_id (some st) = st

module _ {B : Type 0} where
  abbrev pub return : {A : Type 0} → A → M B A
  return a c = (ok a, c)

  -- `m?` and what follows.
  abbrev pub after :
      {A : Type 0} → Result (Unit {0}) × SagaCoordinator B → M B A → Result A × SagaCoordinator B
  after (ok u, c) k = k c
  after (err e, c) k = (err e, c)
  after (panic, c) k = (panic, c)

  -- The file is replaced by a rename, and the copy in memory follows it.
  unfoldable pub persist : SagaState → M B (Unit {0})
  persist st c =
      if next_write c.writes
      then (
        ok tt,
        record c {
          states = text_put st.tx_id (record st { updated_at_ms = c.now }) c.states;
          writes = rest_writes c.writes;
        },
      )
      else (err io, record c { writes = rest_writes c.writes })

  unfoldable pub start : String → M B SagaState
  start tx_id c =
      if is_some (text_get tx_id c.states)
      then (err config, c)
      else after (persist (new_state c.now tx_id) c) (return (new_state c.now tx_id))

  -- The map that `compensate` builds of the steps keeps the last one of a name.
  unfoldable pub find_step : String → List (SagaStep B) → Option (SagaStep B)
  find_step name [] = none
  find_step name (s ∷ ss) = elim (find_step name ss) [
    | some t ↦ some t
    | none ↦ if s.name == name then some s else none
  ]

  -- The arms of `compensate`'s match on a compensation's outcome; `rest` is the loop's other rounds.
  abbrev pub on_compensated :
      (SagaState → M B SagaStatus)
      → String
      → SagaState
      → SagaCoordinator B
      → Result (Unit {0}) × B
      → Result SagaStatus × SagaCoordinator B
  on_compensated rest name st c (ok u, b) =
      let st' = record st { compensated_steps = text_insert name st.compensated_steps } in
      after (persist st' (record c { world = b })) (rest st')
  on_compensated rest name st c (err e, b) =
      after (persist (record st { last_error = some (failed_with e) }) (record c { world = b }))
        (return st.status)
  on_compensated rest name st c (panic, b) = (panic, record c { world = b })

  -- A round: is the name compensated already, and is there a step of that name?
  abbrev pub compensate_round :
      Bool
      → Option (SagaStep B)
      → (SagaState → M B SagaStatus)
      → String
      → SagaState
      → M B SagaStatus
  compensate_round true step rest name st c = rest st c
  compensate_round false none rest name st c =
      after (persist (record st { last_error = some (no_compensation name) }) c) (return st.status)
  compensate_round false (some step) rest name st c =
      on_compensated rest name st c (step.compensate c.world)

  -- The loop of `compensate` over the registered names, the last one first.
  unfoldable pub compensate_loop : List (SagaStep B) → List String → SagaState → M B SagaStatus
  compensate_loop steps [] st c =
      after (persist (record st { status = compensated; last_error = none }) c) (return compensated)
  compensate_loop steps (name ∷ names) st c =
      compensate_round (has_text name st.compensated_steps) (find_step name steps)
        (compensate_loop steps names) name st c

  unfoldable pub compensate_at : List (SagaStep B) → Option SagaState → M B SagaStatus
  compensate_at steps none c = (panic, c)
  compensate_at steps (some st) c =
      let st' = record st { status = compensating } in
      if is_terminal st.status
      then (ok st.status, c)
      else after (persist st' c) (compensate_loop steps (reverse st.executed_steps) st')

  unfoldable pub compensate : String → List (SagaStep B) → M B SagaStatus
  unfolding compensate_at
  compensate tx_id steps c = compensate_at steps (text_get tx_id c.states) c

  -- The arms of `run`'s match on a forward call's outcome; `all` are the steps to compensate.
  abbrev pub on_forward :
      String
      → List (SagaStep B)
      → (SagaState → M B SagaStatus)
      → String
      → SagaState
      → SagaCoordinator B
      → Result (Unit {0}) × B
      → Result SagaStatus × SagaCoordinator B
  on_forward tx_id all rest name st c (ok u, b) =
      let st' = record st { executed_steps = st.executed_steps ++ (name ∷ []) } in
      after (persist st' (record c { world = b })) (rest st')
  on_forward tx_id all rest name st c (err e, b) =
      let st' = record st { status = failed; last_error = some (failed_with e) } in
      after (persist st' (record c { world = b })) (compensate tx_id all)
  on_forward tx_id all rest name st c (panic, b) = (panic, record c { world = b })

  -- A round: a step that is registered or compensated already is passed over.
  abbrev pub run_round :
      Bool
      → String
      → List (SagaStep B)
      → (SagaState → M B SagaStatus)
      → SagaStep B
      → SagaState
      → M B SagaStatus
  run_round true tx_id all rest step st c = rest st c
  run_round false tx_id all rest step st c =
      on_forward tx_id all rest step.name st c (step.forward c.world)

  -- The loop of `run` over the steps that are left.
  unfoldable pub run_loop :
      String → List (SagaStep B) → List (SagaStep B) → SagaState → M B SagaStatus
  run_loop tx_id all [] st c =
      after (persist (record st { status = succeeded }) c) (return succeeded)
  run_loop tx_id all (step ∷ steps) st c =
      run_round (has_text step.name st.compensated_steps || has_text step.name st.executed_steps)
        tx_id all (run_loop tx_id all steps) step st c

  unfoldable pub run_at : String → List (SagaStep B) → SagaState → SagaStatus → M B SagaStatus
  run_at tx_id steps st succeeded c = (ok succeeded, c)
  run_at tx_id steps st compensated c = (ok compensated, c)
  run_at tx_id steps st failed c = compensate tx_id steps c
  run_at tx_id steps st compensating c = compensate tx_id steps c
  run_at tx_id steps st _ c = run_loop tx_id steps steps (record st { status = executing }) c

  unfoldable pub run : String → List (SagaStep B) → M B SagaStatus
  unfolding run_at
  run tx_id steps c =
      let st = or_new c.now tx_id (text_get tx_id c.states) in run_at tx_id steps st st.status c
