-- ===== src/Tests/TxnRuns.antt =====
-- A batch and a transaction that write the documents 5 and 6.
use shanshui_cunji.Prelude.{◌≡◌, refl, none, some, [], ◌∷◌, length, ◌≤◌, arith}
use shanshui_cunji.Errors.{err, txn_conflict}
use shanshui_cunji.Txn.Batch.{WriteBatch, new_batch, batch_put}
use shanshui_cunji.Txn.Transaction.{
  Transaction, repeatable_read, new_txn, txn_put, txn_delete, read_own, snap_get, snap_put,
  cache_limit, validate_txn,
}
use shanshui_cunji.Txn.Transaction.Reads.{snap_put_lem}

abbrev one_put : WriteBatch
one_put = batch_put (new_batch 1) 5 (7 ∷ []) []

abbrev five_written : Transaction
five_written = txn_put (new_txn 1 repeatable_read 100) 5 (7 ∷ []) []

own_value : read_own five_written 5 ≡ some (some (7 ∷ []))
unfolding read_own txn_put new_txn
own_value = refl

own_delete : read_own (txn_delete five_written 5) 5 ≡ some none
unfolding read_own txn_delete txn_put new_txn
own_delete = refl

zero_refused : validate_txn (txn_delete five_written 0) ≡ err txn_conflict
unfolding validate_txn txn_delete txn_put new_txn
zero_refused = refl

snap_put_lem_example :
    (snap_get (snap_put five_written 9 none) 9 ≡ some none)
    × (length (snap_put five_written 9 none).snap_cache ≤ cache_limit)
snap_put_lem_example = snap_put_lem five_written 9 none (unfold txn_put new_txn in omega arith)
