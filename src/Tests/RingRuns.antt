-- ===== src/Tests/RingRuns.antt =====
-- A ring log that is filled, flushed and wrapped.
use shanshui_cunji.Prelude.{ℕ, ◌≡◌, refl, Option, [], ◌∷◌, arith, length}
use shanshui_cunji.Errors.{ok, err, wal_full}
use shanshui_cunji.Bytes.{Bytes, to_le, from_le}
use shanshui_cunji.Keys.{encode_varlen, decode_varlen}
use shanshui_cunji.Tests.LogRuns.{put_a, delete_a, put_a-IsWritable, delete_a-IsWritable}
use shanshui_cunji.Wal.{WalRecord, payload_of, frame, crc32, crc_bytes, crc_rounds, decode_payload}
use shanshui_cunji.Wal.Crash.{log_bytes}
use shanshui_cunji.Wal.Ring.{
  RingWal, append_at, sync, set_flushed_seq, recover_records, write_ring_header, write_at,
  scan_ring, scan_loop, read_at, plan, place, write_plan,
}
use shanshui_cunji.Wal.Ring.Durable.{
  created, append_all, Durable, created-Holds, created-IsWellFormed, append_all-IsWellFormed,
  sync-Durable,
}
use shanshui_cunji.Wal.Ring.Safety.{IsWellFormed, ring-IsWellFormed, Keeps, sync-Keeps}

abbrev put_again : WalRecord
put_again = record put_a { seq = 9 }

-- Room for two records of at most thirty bytes.
abbrev ring : RingWal
ring = created 80

abbrev first_synced : RingWal
first_synced = (sync (append_all ring (put_a ∷ []))).1

first_read : recover_records first_synced ≡ ok (put_a ∷ [])
unfolding recover_records scan_ring scan_loop read_at sync append_all append_at set_flushed_seq plan
    place write_plan write_at write_ring_header frame payload_of encode_varlen decode_varlen
    decode_payload to_le from_le crc32 crc_bytes crc_rounds
first_read = refl

-- With a record that is not flushed, the wrap is refused.
refused_wrap : (sync (append_all first_synced (delete_a ∷ put_again ∷ []))).0 ≡ err wal_full
unfolding sync append_all append_at frame to_le payload_of encode_varlen plan place from_le
refused_wrap = refl

-- The second record of this sync wraps, and the first one, which was never flushed, is behind the
-- new tail: the sync returns `ok`, and only the second record is read back.
wrap_hides :
    ((sync (append_all (set_flushed_seq first_synced 7) (delete_a ∷ put_again ∷ []))).0 ≡ ok tt)
    × (recover_records
          (sync (append_all (set_flushed_seq first_synced 7) (delete_a ∷ put_again ∷ []))).1
        ≡ ok (put_again ∷ []))
unfolding recover_records scan_ring scan_loop read_at sync append_all append_at set_flushed_seq plan
    place write_plan write_at write_ring_header frame payload_of encode_varlen decode_varlen
    decode_payload to_le from_le crc32 crc_bytes crc_rounds
wrap_hides = (refl, refl)

size_of_two : length (log_bytes (put_a ∷ delete_a ∷ [])) ≡ 54
unfolding log_bytes frame payload_of encode_varlen to_le
size_of_two = refl

ring-IsWellFormed_lem : IsWellFormed ring
ring-IsWellFormed_lem = created-IsWellFormed 80 (omega arith)

sync-Durable_example :
    Durable 80 (put_a ∷ delete_a ∷ []) (sync (append_all ring (put_a ∷ delete_a ∷ [])))
sync-Durable_example =
    sync-Durable ring [] (put_a ∷ delete_a ∷ []) ring-IsWellFormed_lem
      (created-Holds 80 (omega arith)) refl (put_a-IsWritable, (delete_a-IsWritable, tt))
      (omega arith) (omega arith) (omega (arith, size_of_two))

ring-IsWellFormed_example :
    ((op : ℕ) (key : Bytes) (value : Option Bytes) (seq : ℕ)
      → IsWellFormed (append_at ring op key value seq).1)
    × ((seq : ℕ) → IsWellFormed (set_flushed_seq ring seq))
    × IsWellFormed (sync ring).1
ring-IsWellFormed_example = ring-IsWellFormed ring ring-IsWellFormed_lem

first_synced-IsWellFormed : IsWellFormed first_synced
first_synced-IsWellFormed =
    (ring-IsWellFormed (append_all ring (put_a ∷ []))
      (append_all-IsWellFormed (put_a ∷ []) ring ring-IsWellFormed_lem)).2

abbrev waiting : RingWal
waiting = append_all first_synced (delete_a ∷ put_again ∷ [])

waiting_seqs : (waiting.flushed_seq ≡ 0) × (waiting.max_written_seq ≡ 7)
unfolding sync append_all append_at plan place frame payload_of encode_varlen to_le from_le
waiting_seqs = (refl, refl)

sync-Keeps_example : Keeps waiting (sync waiting)
sync-Keeps_example =
    sync-Keeps waiting
      (append_all-IsWellFormed (delete_a ∷ put_again ∷ []) first_synced first_synced-IsWellFormed)
      (omega (arith, waiting_seqs.0, waiting_seqs.1))
