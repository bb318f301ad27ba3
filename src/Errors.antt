-- ===== src/Errors.antt =====
-- src/error.rs: the error type, without the texts of its messages.
use shanshui_cunji.Prelude.{Bool, true, false}

pub data Error : Type 0 where
  io config corrupted serialize not_found unsupported : Error
  memory_overload query_too_expensive stalled wal_full migrate rpc : Error
  cluster txn_conflict txn_deadlock txn_aborted : Error

-- `panic` is a run that Rust aborts: an index out of range, a failed `assert!` or `unwrap`.
pub data Result {ℓ} (A : Type ℓ) : Type ℓ where
  ok : A → Result A
  err : Error → Result A
  panic : Result A

infixl 5 ◌>>=◌ ◌>>◌
-- An error or a panic ends the chain.
abbrev pub ◌>>=◌ {ℓ κ} : {X : Type ℓ} {Y : Type κ} → Result X → (X → Result Y) → Result Y
panic >>= next = panic
err e >>= next = err e
ok x >>= next = next x

abbrev pub ◌>>◌ {κ} : {Y : Type κ} → Result (Unit {0}) → Result Y → Result Y
first >> rest = first >>= λ _. rest

-- `if test { return Err(e) }`
abbrev pub fail_if : Bool → Error → Result (Unit {0})
fail_if true e = err e
fail_if false e = ok tt
