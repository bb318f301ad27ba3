-- ===== src/Wal/Backend.antt =====
-- src/wal.rs: the two logs behind one type, to which a column family passes its calls.
use shanshui_cunji.Prelude.{ℕ, Option, List}
use shanshui_cunji.Errors.{Result, ok}
use shanshui_cunji.Bytes.{Bytes}
use shanshui_cunji.Wal.{
  WalRecord, WalWriter, recover, append as log_append, append_at as log_append_at, sync as log_sync,
  truncate_and_reset as log_truncate, resume_seq as log_resume,
}
use shanshui_cunji.Wal.Ring.{
  RingWal, recover_records, append as ring_append, append_at as ring_append_at, sync as ring_sync,
  set_flushed_seq as ring_set_flushed, resume_seq as ring_resume,
}

pub data WalBackend : Type 0 where
  append_log : WalWriter → WalBackend
  ring_log : RingWal → WalBackend

abbrev pub of_ring : {A : Type 0} → Result A × RingWal → Result A × WalBackend
of_ring (result, r) = (result, ring_log r)

unfoldable pub backend_append : WalBackend → ℕ → Bytes → Option Bytes → Result ℕ × WalBackend
backend_append (append_log w) op key value =
    let (seq, w') = log_append w op key value in (ok seq, append_log w')
backend_append (ring_log r) op key value = of_ring (ring_append r op key value)

unfoldable pub backend_append_at :
    WalBackend → ℕ → Bytes → Option Bytes → ℕ → Result (Unit {0}) × WalBackend
backend_append_at (append_log w) op key value seq =
    (ok tt, append_log (log_append_at w op key value seq))
backend_append_at (ring_log r) op key value seq = of_ring (ring_append_at r op key value seq)

unfoldable pub backend_sync : WalBackend → Result (Unit {0}) × WalBackend
backend_sync (append_log w) = (ok tt, append_log (log_sync w))
backend_sync (ring_log r) = of_ring (ring_sync r)

-- The ring log is not emptied: it reclaims its bytes by overwriting them.
unfoldable pub backend_truncate_and_reset : WalBackend → Result (Unit {0}) × WalBackend
backend_truncate_and_reset (append_log w) = (ok tt, append_log (log_truncate w))
backend_truncate_and_reset (ring_log r) = (ok tt, ring_log r)

unfoldable pub backend_pending_bytes : WalBackend → ℕ
backend_pending_bytes (append_log w) = w.pending_bytes
backend_pending_bytes (ring_log r) = r.pending_bytes

unfoldable pub backend_next_seq : WalBackend → ℕ
backend_next_seq (append_log w) = w.next_seq
backend_next_seq (ring_log r) = r.next_seq

unfoldable pub backend_resume_seq : WalBackend → ℕ → WalBackend
backend_resume_seq (append_log w) next_seq = append_log (log_resume w next_seq)
backend_resume_seq (ring_log r) next_seq = ring_log (ring_resume r next_seq)

unfoldable pub backend_set_flushed_seq : WalBackend → ℕ → WalBackend
backend_set_flushed_seq (append_log w) seq = append_log w
backend_set_flushed_seq (ring_log r) seq = ring_log (ring_set_flushed r seq)

unfoldable pub backend_recover_records : WalBackend → Result (List WalRecord)
backend_recover_records (append_log w) = ok (recover w.file)
backend_recover_records (ring_log r) = recover_records r
