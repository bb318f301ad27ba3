-- ===== src/Txn/Locks/Deadlock.antt =====
-- The search of `detect_deadlock` against the wait-for relation.
pub mod Fuel
pub mod Sound
pub mod Complete
use shanshui_cunji.Prelude.{
  ℕ, ◌+◌, ◌<◌, ◌≡◌, ◌≢◌, Bool, true, ◌||◌, ◌==◌, List, contains, lookup, is_some,
}
use shanshui_cunji.Txn.Locks.{LockTable, Stack, blockers}

-- `a` waits for a document that `b` holds.
pub record WaitsFor (t : LockTable) (a b : ℕ) : Type 0 where
  pub holds : contains (blockers t a) b ≡ true
  pub other : b ≢ a

-- One or more steps of waiting.
pub data Reaches (t : LockTable) : ℕ → ℕ → Type 0 where
  one : {a b : ℕ} → WaitsFor t a b → Reaches t a b
  step : {a b c : ℕ} → WaitsFor t a b → Reaches t b c → Reaches t a c

pub then_one : {t : LockTable} {a b c : ℕ} → Reaches t a b → WaitsFor t b c → Reaches t a c
then_one (one w) v = step w (one v)
then_one (step w r) v = step w (then_one r v)
