-- ===== src/Saga/Repeat.antt =====
-- A run that has ended is not run again.
use Prim.Native.String.{String}
use text.Mathlib.TextPositions.{eq_refl}
use shanshui_cunji.Prelude.{
  ◌≡◌, inl, inr, refl, Bool, true, false, ◌||◌, Option, none, some, List, [], ◌∷◌, arith,
  Option-cases, Bool-cases,
}
use shanshui_cunji.Prelude.Texts.{has_text, text_get, text_get-put}
use shanshui_cunji.Errors.{Result, ok, err, panic}
use shanshui_cunji.Saga.{
  SagaStatus, succeeded, compensated, failed, init, executing, compensating, SagaState, new_state,
  SagaStep, SagaCoordinator, M, find_step, persist, after, compensate_round, on_compensated,
  compensate_loop, compensate_at, compensate, run_round, on_forward, run_loop, run_at, run,
  is_terminal, next_write,
}

module _ {B : Type 0} where
  -- What `status` answers for the transaction.
  abbrev IsAt : String → SagaStatus → SagaCoordinator B → Type 0
  IsAt tx_id s c =
      (st : SagaState) × (text_get tx_id c.states ≡ some st) × (st.status ≡ s) × (st.tx_id ≡ tx_id)

  -- A terminal status that is returned is the one that is saved.
  abbrev IsSaved : String → Result SagaStatus × SagaCoordinator B → Type 0
  IsSaved tx_id r = (s : SagaStatus) → r.0 ≡ ok s → is_terminal s ≡ true → IsAt tx_id s r.1

  persist-IsSaved :
      (tx_id : String) (st : SagaState) (c : SagaCoordinator B) (k : M B SagaStatus)
      → st.tx_id ≡ tx_id
      → ((c' : SagaCoordinator B) → IsAt tx_id st.status c' → IsSaved tx_id (k c'))
      → IsSaved tx_id (after (persist st c) k)
  unfolding persist
  persist-IsSaved tx_id st c k e h = elim (Bool-cases (next_write c.writes)) [
    | inl w ↦ rw w (
        h _ (
          record st { updated_at_ms = c.now },
          rw
              (
                text_get-put st.tx_id tx_id (record st { updated_at_ms = c.now }) c.states,
                e,
                eq_refl,
              )
              refl,
          refl,
          e,
        ))
    | inr w ↦ rw w (λ s q t. ground arith)
  ]

  kept-IsSaved :
      (tx_id : String) (s : SagaStatus) (c : SagaCoordinator B)
      → IsAt tx_id s c
      → IsSaved tx_id (ok s, c)
  kept-IsSaved tx_id s c (st, found, e, own) s' q t = (st, found, ground arith, own)

  -- The status `compensating` is not terminal.
  compensating-IsSaved :
      (tx_id : String) (st : SagaState) (c : SagaCoordinator B)
      → st.status ≡ compensating
      → IsSaved tx_id (ok st.status, c)
  unfolding is_terminal
  compensating-IsSaved tx_id st c e s q t = absurd (ground arith)

  on_compensated-IsSaved :
      (tx_id : String) (rest : SagaState → M B SagaStatus) (name : String) (st : SagaState)
      (c : SagaCoordinator B) (done : Result (Unit {0}) × B)
      → st.tx_id ≡ tx_id
      → st.status ≡ compensating
      → ((st' : SagaState) (c' : SagaCoordinator B)
          → st'.tx_id ≡ tx_id
          → st'.status ≡ compensating
          → IsSaved tx_id (rest st' c'))
      → IsSaved tx_id (on_compensated rest name st c done)
  on_compensated-IsSaved tx_id rest name st c (ok u, b) e k h =
      persist-IsSaved tx_id _ _ _ e (λ c' at. h _ c' e k)
  on_compensated-IsSaved tx_id rest name st c (err x, b) e k h =
      persist-IsSaved tx_id _ _ _ e (λ c' at. compensating-IsSaved tx_id st c' k)
  on_compensated-IsSaved tx_id rest name st c (panic, b) e k h = λ s q t. ground arith

  compensate_round-IsSaved :
      (tx_id : String) (skip : Bool) (found : Option (SagaStep B))
      (rest : SagaState → M B SagaStatus) (name : String) (st : SagaState) (c : SagaCoordinator B)
      → st.tx_id ≡ tx_id
      → st.status ≡ compensating
      → ((st' : SagaState) (c' : SagaCoordinator B)
          → st'.tx_id ≡ tx_id
          → st'.status ≡ compensating
          → IsSaved tx_id (rest st' c'))
      → IsSaved tx_id (compensate_round skip found rest name st c)
  compensate_round-IsSaved tx_id true found rest name st c e k h = h st c e k
  compensate_round-IsSaved tx_id false none rest name st c e k h =
      persist-IsSaved tx_id _ _ _ e (λ c' at. compensating-IsSaved tx_id st c' k)
  compensate_round-IsSaved tx_id false (some step) rest name st c e k h =
      on_compensated-IsSaved tx_id rest name st c (step.compensate c.world) e k h

  compensate_loop-IsSaved :
      (tx_id : String) (steps : List (SagaStep B)) (names : List String) (st : SagaState)
      (c : SagaCoordinator B)
      → st.tx_id ≡ tx_id
      → st.status ≡ compensating
      → IsSaved tx_id (compensate_loop steps names st c)
  unfolding compensate_loop
  compensate_loop-IsSaved tx_id steps [] st c e k =
      persist-IsSaved tx_id _ _ _ e (λ c' at. kept-IsSaved tx_id compensated c' at)
  compensate_loop-IsSaved tx_id steps (name ∷ names) st c e k =
      compensate_round-IsSaved tx_id (has_text name st.compensated_steps) (find_step name steps)
        (compensate_loop steps names) name st c e k
        (λ st' c' e' k'. compensate_loop-IsSaved tx_id steps names st' c' e' k')

  compensate_at-IsSaved :
      (tx_id : String) (steps : List (SagaStep B)) (st : SagaState) (c : SagaCoordinator B)
      → st.tx_id ≡ tx_id
      → text_get tx_id c.states ≡ some st
      → IsSaved tx_id (compensate_at steps (some st) c)
  unfolding compensate_at
  compensate_at-IsSaved tx_id steps st c e found = elim (Bool-cases (is_terminal st.status)) [
    | inl t ↦ rw t (kept-IsSaved tx_id st.status c (st, found, refl, e))
    | inr t ↦
        rw t (
          persist-IsSaved tx_id _ _ _ e
            (λ c' at. compensate_loop-IsSaved tx_id steps _ _ c' e refl))
  ]

  compensate-IsSaved :
      (tx_id : String) (steps : List (SagaStep B)) (s : SagaStatus) (c : SagaCoordinator B)
      → IsAt tx_id s c
      → IsSaved tx_id (compensate tx_id steps c)
  unfolding compensate
  compensate-IsSaved tx_id steps s c (st, found, e, own) =
      rw found (compensate_at-IsSaved tx_id steps st c own found)

  on_forward-IsSaved :
      (tx_id : String) (all : List (SagaStep B)) (rest : SagaState → M B SagaStatus) (name : String)
      (st : SagaState) (c : SagaCoordinator B) (done : Result (Unit {0}) × B)
      → st.tx_id ≡ tx_id
      → ((st' : SagaState) (c' : SagaCoordinator B)
          → st'.tx_id ≡ tx_id
          → IsSaved tx_id (rest st' c'))
      → IsSaved tx_id (on_forward tx_id all rest name st c done)
  on_forward-IsSaved tx_id all rest name st c (ok u, b) e h =
      persist-IsSaved tx_id _ _ _ e (λ c' at. h _ c' e)
  on_forward-IsSaved tx_id all rest name st c (err x, b) e h =
      persist-IsSaved tx_id _ _ _ e (λ c' at. compensate-IsSaved tx_id all failed c' at)
  on_forward-IsSaved tx_id all rest name st c (panic, b) e h = λ s q t. ground arith

  run_round-IsSaved :
      (tx_id : String) (skip : Bool) (all : List (SagaStep B)) (rest : SagaState → M B SagaStatus)
      (step : SagaStep B) (st : SagaState) (c : SagaCoordinator B)
      → st.tx_id ≡ tx_id
      → ((st' : SagaState) (c' : SagaCoordinator B)
          → st'.tx_id ≡ tx_id
          → IsSaved tx_id (rest st' c'))
      → IsSaved tx_id (run_round skip tx_id all rest step st c)
  run_round-IsSaved tx_id true all rest step st c e h = h st c e
  run_round-IsSaved tx_id false all rest step st c e h =
      on_forward-IsSaved tx_id all rest step.name st c (step.forward c.world) e h

  run_loop-IsSaved :
      (tx_id : String) (all steps : List (SagaStep B)) (st : SagaState) (c : SagaCoordinator B)
      → st.tx_id ≡ tx_id
      → IsSaved tx_id (run_loop tx_id all steps st c)
  unfolding run_loop
  run_loop-IsSaved tx_id all [] st c e =
      persist-IsSaved tx_id _ _ _ e (λ c' at. kept-IsSaved tx_id succeeded c' at)
  run_loop-IsSaved tx_id all (s ∷ ss) st c e =
      run_round-IsSaved tx_id
        (has_text s.name st.compensated_steps || has_text s.name st.executed_steps) all
        (run_loop tx_id all ss) s st c e (λ st' c' e'. run_loop-IsSaved tx_id all ss st' c' e')

  run_at-IsSaved :
      (tx_id : String) (steps : List (SagaStep B)) (st : SagaState) (s : SagaStatus)
      (c : SagaCoordinator B)
      → text_get tx_id c.states ≡ some st
      → st.status ≡ s
      → st.tx_id ≡ tx_id
      → IsSaved tx_id (run_at tx_id steps st s c)
  unfolding run_at
  run_at-IsSaved tx_id steps st init c found e own = run_loop-IsSaved tx_id steps steps _ c own
  run_at-IsSaved tx_id steps st executing c found e own = run_loop-IsSaved tx_id steps steps _ c own
  run_at-IsSaved tx_id steps st succeeded c found e own =
      kept-IsSaved tx_id succeeded c (st, found, e, own)
  run_at-IsSaved tx_id steps st failed c found e own =
      compensate-IsSaved tx_id steps failed c (st, found, e, own)
  run_at-IsSaved tx_id steps st compensating c found e own =
      compensate-IsSaved tx_id steps compensating c (st, found, e, own)
  run_at-IsSaved tx_id steps st compensated c found e own =
      kept-IsSaved tx_id compensated c (st, found, e, own)

  -- The saved state of a transaction carries its name.
  abbrev pub IsOwn : String → SagaCoordinator B → Type 0
  IsOwn tx_id c = (st : SagaState) → text_get tx_id c.states ≡ some st → st.tx_id ≡ tx_id

  run-IsSaved :
      (tx_id : String) (steps : List (SagaStep B)) (c : SagaCoordinator B)
      → IsOwn tx_id c
      → IsSaved tx_id (run tx_id steps c)
  unfolding run run_at new_state
  run-IsSaved tx_id steps c own = elim (Option-cases (text_get tx_id c.states)) [
    | inl e ↦ rw e (run_loop-IsSaved tx_id steps steps _ c refl)
    | inr (st, e) ↦ rw e (run_at-IsSaved tx_id steps st st.status c e refl (own st e))
  ]

  run_at_ended :
      (tx_id : String) (steps : List (SagaStep B)) (st : SagaState) (s : SagaStatus)
      (c : SagaCoordinator B)
      → is_terminal s ≡ true
      → run_at tx_id steps st s c ≡ (ok s, c)
  unfolding run_at is_terminal
  run_at_ended tx_id steps st succeeded c t = refl
  run_at_ended tx_id steps st compensated c t = refl
  run_at_ended tx_id steps st init c t = ground arith
  run_at_ended tx_id steps st executing c t = ground arith
  run_at_ended tx_id steps st failed c t = ground arith
  run_at_ended tx_id steps st compensating c t = ground arith

  run_ended :
      (tx_id : String) (steps : List (SagaStep B)) (s : SagaStatus) (c : SagaCoordinator B)
      → IsAt tx_id s c
      → is_terminal s ≡ true
      → run tx_id steps c ≡ (ok s, c)
  unfolding run
  run_ended tx_id steps s c (st, found, e, _) t = rw (found, e) (run_at_ended tx_id steps st s c t)

  -- A run that returned a terminal status, run again with whatever steps, returns the same status and
  -- changes nothing: no step is called, no file is written. The state that is saved for the
  -- transaction, if there is one, has to carry its name.
  pub run_repeat :
      (tx_id : String) (steps later : List (SagaStep B)) (c : SagaCoordinator B) (s : SagaStatus)
      → IsOwn tx_id c
      → (run tx_id steps c).0 ≡ ok s
      → is_terminal s ≡ true
      → run tx_id later (run tx_id steps c).1 ≡ (ok s, (run tx_id steps c).1)
  run_repeat tx_id steps later c s own e t =
      run_ended tx_id later s (run tx_id steps c).1 (run-IsSaved tx_id steps c own s e t) t
