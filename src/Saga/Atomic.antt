-- ===== src/Saga/Atomic.antt =====
-- All or nothing: what a run of reversible steps leaves behind.
use Prim.Native.String.{String}
use text.Mathlib.TextPositions.{eq_refl}
use mathlib.Core.Path.{subst}
use mathlib.Core.List.{reverse-append}
use shanshui_cunji.Prelude.{
  ◌≡◌, ◌⊎◌, inl, inr, refl, sym, ap, ◌∙◌, false, ◌||◌, some, List, [], ◌∷◌, ◌++◌, reverse, All,
}
use shanshui_cunji.Prelude.Texts.{has_text, text_get, text_put, text_get-put}
use shanshui_cunji.Errors.{Error, Result, ok, err}
use shanshui_cunji.Saga.{
  SagaStatus, succeeded, failed, executing, compensating, SagaState, new_state, SagaStep,
  SagaCoordinator, M, failed_with, persist, compensate_at, compensate, on_forward, run_round,
  run_loop, run_at, run, or_new, is_terminal,
}
use shanshui_cunji.Saga.Undo.{
  All-both, HaveNewNames, IsKnown, IsReversible, Result-cases, UndoPath, Undone, All-IsKnown,
  compensate_loop-Undone, AllDone, SomeFails, has_text-next, has_text-snoc, has_text_no_text, names,
  names_apart,
}

module _ {B : Type 0} where
  -- Between two rounds of `run`: `stack` are the steps done, the last one first.
  record Ready (tx_id : String) (all stack todo : List (SagaStep B)) (st : SagaState)
      (c : SagaCoordinator B) (start : B) : Type 0 where
    same_tx : st.tx_id ≡ tx_id
    agree : (x : String) → has_text x st.executed_steps ≡ has_text x (names stack)
    order : reverse st.executed_steps ≡ names stack
    none_undone : st.compensated_steps ≡ []
    path : UndoPath stack c.world start
    apart : HaveNewNames stack
    fresh : All (λ (s : SagaStep B). has_text s.name (names stack) ≡ false) todo
    distinct : HaveNewNames todo
    known_stack : All (IsKnown all) stack
    known_todo : All (IsKnown all) todo
    quiet : c.writes ≡ []

  fresh-All :
      (ss : List (SagaStep B)) (st : SagaState)
      → st.compensated_steps ≡ []
      → All (λ (s : SagaStep B). has_text s.name st.compensated_steps ≡ false) ss
  unfolding has_text
  fresh-All [] st e = tt
  fresh-All (s ∷ ss) st e = (rw e, fresh-All ss st e)

  -- A failed step: what was done is undone.
  fail-Undone :
      (tx_id : String) (all stack todo : List (SagaStep B)) (st st' : SagaState)
      (c c' : SagaCoordinator B) (start : B)
      → Ready tx_id all stack todo st c start
      → text_get tx_id c'.states ≡ some st'
      → st'.status ≡ failed
      → st'.executed_steps ≡ st.executed_steps
      → st'.compensated_steps ≡ st.compensated_steps
      → c'.writes ≡ []
      → c'.world ≡ c.world
      → Undone start (compensate tx_id all c')
  unfolding compensate compensate_at persist is_terminal
  fail-Undone tx_id all stack todo st st' c c' start h found status ex comp quiet world =
      rw (found, status, ex, quiet, h.order)
        (compensate_loop-Undone all stack
          (record st' { status = compensating; executed_steps = st.executed_steps }) _ start refl
          (rw world h.path) h.known_stack
          (fresh-All stack
            (record st' { status = compensating; executed_steps = st.executed_steps })
            (comp ∙ h.none_undone))
          h.apart)

  -- The state and the coordinator after a round that succeeds.
  abbrev next_state : SagaState → SagaStep B → SagaState
  next_state st s = record st { executed_steps = st.executed_steps ++ (s.name ∷ []) }

  abbrev next_coordinator : SagaState → SagaStep B → SagaCoordinator B → SagaCoordinator B
  next_coordinator st s c = record c {
    states = text_put st.tx_id (record (next_state st s) { updated_at_ms = c.now }) c.states;
    writes = [];
    world = (s.forward c.world).1;
  }

  run_loop_round :
      (tx_id : String) (all ss : List (SagaStep B)) (s : SagaStep B) (st : SagaState)
      (c : SagaCoordinator B)
      → has_text s.name st.compensated_steps ≡ false
      → has_text s.name st.executed_steps ≡ false
      → run_loop tx_id all (s ∷ ss) st c
        ≡ on_forward tx_id all (run_loop tx_id all ss) s.name st c (s.forward c.world)
  unfolding run_loop
  run_loop_round tx_id all ss s st c f g =
      let skipped : (has_text s.name st.compensated_steps || has_text s.name st.executed_steps)
          ≡ false =
        rw (f, g) in
      ap (λ x. run_round x tx_id all (run_loop tx_id all ss) s st c) skipped

  -- A round that succeeds leaves the next round ready.
  next-Ready :
      (tx_id : String) (all stack ss : List (SagaStep B)) (s : SagaStep B) (st : SagaState)
      (c : SagaCoordinator B) (start : B)
      → IsReversible s
      → (s.forward c.world).0 ≡ ok tt
      → Ready tx_id all stack (s ∷ ss) st c start
      → Ready tx_id all (s ∷ stack) ss (next_state st s) (next_coordinator st s c) start
  unfolding persist
  next-Ready tx_id all stack ss s st c start rev e h = record {
    same_tx = h.same_tx;
    agree = λ x. has_text-snoc x s.name st.executed_steps (names stack) (h.agree x);
    order = reverse-append st.executed_steps (s.name ∷ []) ∙ ap (λ ns. s.name ∷ ns) h.order;
    none_undone = h.none_undone;
    path = (c.world, rev.undo c.world e, h.path);
    apart = (h.fresh.0, h.apart);
    fresh =
        All-both ss (λ t p q. has_text-next t.name s.name (names stack) p q)
          (names_apart s.name ss h.distinct.0) h.fresh.1;
    distinct = h.distinct.1;
    known_stack = (h.known_todo.0, h.known_stack);
    known_todo = h.known_todo.1;
    quiet = refl;
  }

  -- Every step done from `b` on, or one of them failed and the world is `start`.
  abbrev pub AllOrNothing :
      List (SagaStep B) → B → B → Result SagaStatus × SagaCoordinator B → Type 0
  AllOrNothing todo b start r =
      ((r.0 ≡ ok succeeded) × AllDone todo b r.1.world) ⊎ (Undone start r × SomeFails todo b)

  -- One more step done in front of the others.
  AllOrNothing-cons :
      (s : SagaStep B) (ss : List (SagaStep B)) (b start : B)
      (r : Result SagaStatus × SagaCoordinator B)
      → (s.forward b).0 ≡ ok tt
      → AllOrNothing ss (s.forward b).1 start r
      → AllOrNothing (s ∷ ss) b start r
  AllOrNothing-cons s ss b start r e (inl (ended, all)) = inl (ended, (e, all))
  AllOrNothing-cons s ss b start r e (inr (back, one)) = inr (back, inr (e, one))

  -- The failed round, from the outcome of the forward call on.
  on_forward-Undone :
      (tx_id : String) (all stack todo : List (SagaStep B)) (s : SagaStep B) (st : SagaState)
      (c : SagaCoordinator B) (start : B) (e : Error) (rest : SagaState → M B SagaStatus)
      → Ready tx_id all stack todo st c start
      → (s.forward c.world).1 ≡ c.world
      → Undone start (on_forward tx_id all rest s.name st c (err e, (s.forward c.world).1))
  unfolding persist
  on_forward-Undone tx_id all stack todo s st c start e rest h same =
      let st' = record st { status = failed; last_error = some (failed_with e) } in
      let saved = record st' { updated_at_ms = c.now } in
      let c' = record c {
        states = text_put st.tx_id saved c.states;
        writes = [];
        world = (s.forward c.world).1;
      } in
      let found : text_get tx_id c'.states ≡ some saved =
        rw (text_get-put st.tx_id tx_id saved c.states, h.same_tx, eq_refl) refl in
      rw h.quiet
        (fail-Undone tx_id all stack todo st saved c c' start h found refl refl refl refl same)

  run_loop_atomic :
      (tx_id : String) (all stack todo : List (SagaStep B)) (st : SagaState) (c : SagaCoordinator B)
      (start : B)
      → All IsReversible todo
      → Ready tx_id all stack todo st c start
      → AllOrNothing todo c.world start (run_loop tx_id all todo st c)
  unfolding run_loop persist
  run_loop_atomic tx_id all stack [] st c start rev h = inl (rw h.quiet (refl, refl))
  run_loop_atomic tx_id all stack (s ∷ ss) st c start (r, rs) h =
      let rest = run_loop tx_id all ss in
      let b = s.forward c.world in
      let Ends : Result (Unit {0}) → Type 0 =
        λ x. AllOrNothing (s ∷ ss) c.world start (on_forward tx_id all rest s.name st c (x, b.1)) in
      rw
        (run_loop_round tx_id all ss s st c
          (has_text_no_text s.name st.compensated_steps h.none_undone) (h.agree s.name ∙ h.fresh.0))
        (elim (Result-cases b.0) [
          | inl e ↦ subst Ends (sym e) (
              rw h.quiet (
                AllOrNothing-cons s ss c.world start
                  (rest (next_state st s) (next_coordinator st s c)) e
                  (run_loop_atomic tx_id all (s ∷ stack) ss (next_state st s)
                    (next_coordinator st s c) start rs
                    (next-Ready tx_id all stack ss s st c start r e h))))
          | inr (inl (x, e)) ↦ subst Ends (sym e) (
              inr (
                on_forward-Undone tx_id all stack (s ∷ ss) s st c start x rest h
                    (r.no_trace c.world x e),
                inl (x, e),
              ))
          | inr (inr e) ↦ absurd (r.no_panic c.world e)
        ])

  -- A run of reversible steps, none of which is named twice, on a transaction that is new, with every
  -- write succeeding: either every step's forward call returned `ok`, `succeeded` is returned and the
  -- world is the one that the last step left; or a step's forward call returned an error,
  -- `compensated` is returned and the world is the one before the run.
  pub run_atomic :
      (tx_id : String) (steps : List (SagaStep B)) (c : SagaCoordinator B)
      → or_new c.now tx_id (text_get tx_id c.states) ≡ new_state c.now tx_id
      → All IsReversible steps
      → HaveNewNames steps
      → c.writes ≡ []
      → AllOrNothing steps c.world c.world (run tx_id steps c)
  unfolding run run_at new_state has_text
  run_atomic tx_id steps c fresh rev apart quiet = rw fresh (
      run_loop_atomic tx_id steps [] steps (record (new_state c.now tx_id) { status = executing }) c
        c.world rev
        (record {
          same_tx = refl;
          agree = λ x. refl;
          order = refl;
          none_undone = refl;
          path = refl;
          apart = tt;
          fresh = fresh-All steps (new_state c.now tx_id) refl;
          distinct = apart;
          known_stack = tt;
          known_todo = All-IsKnown steps apart;
          quiet = quiet;
        }))
