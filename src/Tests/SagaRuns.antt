-- ===== src/Tests/SagaRuns.antt =====
-- A transaction of two steps, the second of which fails.
use shanshui_cunji.Prelude.{ℕ, ◌+◌, ◌-◌, ◌≡◌, refl, false, none, List, [], ◌∷◌, arith}
use shanshui_cunji.Prelude.Texts.{has_text, text_get, text_put}
use shanshui_cunji.Errors.{io, ok, err}
use shanshui_cunji.Saga.{
  compensated, SagaStep, SagaCoordinator, run, run_loop, compensate, compensate_loop, persist,
  find_step, new_state, is_terminal,
}
use shanshui_cunji.Saga.Undo.{IsReversible}
use shanshui_cunji.Saga.Atomic.{AllOrNothing, run_atomic}
use shanshui_cunji.Saga.Repeat.{run_repeat}

-- The world is a balance.
abbrev pay : SagaStep ℕ
pay = record { name = "pay"; forward = λ b. (ok tt, b + 1); compensate = λ b. (ok tt, b - 1) }

abbrev ship : SagaStep ℕ
ship = record { name = "ship"; forward = λ b. (err io, b); compensate = λ b. (ok tt, b) }

abbrev both : List (SagaStep ℕ)
both = pay ∷ ship ∷ []

abbrev idle : SagaCoordinator ℕ
idle = record { states = []; writes = []; now = 5; world = 7 }

failed_run : ((run "t1" both idle).0 ≡ ok compensated) × ((run "t1" both idle).1.world ≡ 7)
unfolding run text_get new_state run_loop has_text persist compensate text_put is_terminal
    compensate_loop find_step
failed_run = (refl, refl)

-- The write behind the first step fails: its effect stays, and no state is saved.
abbrev broken : SagaCoordinator ℕ
broken = record idle { writes = false ∷ [] }

effect_left :
    ((run "t1" both broken).0 ≡ err io)
    × ((run "t1" both broken).1.world ≡ 8)
    × (text_get "t1" (run "t1" both broken).1.states ≡ none)
unfolding run text_get new_state run_loop has_text persist
effect_left = (refl, refl, refl)

pay-IsReversible : IsReversible pay
pay-IsReversible = record {
  undo = λ b e. let back : b + 1 - 1 ≡ b = omega arith in λ i. (ok tt, back i);
  no_trace = λ b x e. ground arith;
  no_panic = λ b e. ground arith;
}

ship-IsReversible : IsReversible ship
ship-IsReversible = record {
  undo = λ b e. refl;
  no_trace = λ b x e. refl;
  no_panic = λ b e. ground arith;
}

run_atomic_example : AllOrNothing both 7 7 (run "t1" both idle)
unfolding text_get has_text
run_atomic_example =
    run_atomic "t1" both idle refl (pay-IsReversible, (ship-IsReversible, tt)) (refl, (refl, tt))
      refl

run_repeat_example : run "t1" [] (run "t1" both idle).1 ≡ (ok compensated, (run "t1" both idle).1)
unfolding text_get is_terminal
run_repeat_example =
    run_repeat "t1" both [] idle compensated (λ st e. absurd (ground arith)) failed_run.0 refl
