-- ===== src/Txn/Locks/Waits.antt =====
-- What becomes of the record of who waits for what.
use shanshui_cunji.Prelude.{ℕ, ◌≡◌, arith}
use shanshui_cunji.Errors.{ok}
use shanshui_cunji.Txn.Locks.{LockMode, LockTable, acquire, record_held, put_lock, refuse}

-- A granted request leaves the record of waits as it was. The requester may stand in it from an
-- earlier refusal, and it still does then.
pub acquire_keeps_waiting :
    (t : LockTable) (txn docid : ℕ) (mode : LockMode)
    → (acquire t txn docid mode).0 ≡ ok tt
    → (acquire t txn docid mode).1.waiting ≡ t.waiting
unfolding acquire record_held put_lock refuse
acquire_keeps_waiting t txn docid mode granted = ground (arith, granted)
