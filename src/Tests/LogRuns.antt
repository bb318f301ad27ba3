-- ===== src/Tests/LogRuns.antt =====
-- A log of a put and a delete, cut off in the middle.
use shanshui_cunji.Keys.{decode_varlen, encode_varlen}
use shanshui_cunji.Prelude.{
  ◌≡◌, ◌+◌, refl, false, none, some, List, [], ◌∷◌, ◌++◌, ◌==◌, arith, length, take, map,
}
use shanshui_cunji.Bytes.{bytes_eq, from_le, to_le}
use shanshui_cunji.Wal.{
  WalRecord, WalWriter, create, sync, open_append, frame, crc32, crc_bytes, crc_rounds, recover,
  decode_payload, payload_of, append_at, replay, truncate_and_reset,
}
use shanshui_cunji.Wal.Frame.{Fits, length-payload_of}
use shanshui_cunji.Wal.Crash.{
  payload, IsWritable, log_bytes, read_back, whole, append_all, written, recover_cut,
}
use shanshui_cunji.Wal.Torn.{torn_frame_hides}
use shanshui_cunji.Wal.History.{
  LogCall, call_append, call_sync, call_truncate, call_reopen, after_calls, promised, promised_call,
  IsSmall, recover-promised,
}

abbrev pub put_a : WalRecord
put_a = record { seq = 7; op = 0; key = 97 ∷ []; value = some (1 ∷ 2 ∷ []) }

abbrev pub delete_a : WalRecord
delete_a = record { seq = 8; op = 1; key = 97 ∷ []; value = none }

abbrev empty_log : WalWriter
empty_log = create false

-- The check value of CRC-32, for the text 123456789.
check_value : crc32 (49 ∷ 50 ∷ 51 ∷ 52 ∷ 53 ∷ 54 ∷ 55 ∷ 56 ∷ 57 ∷ []) ≡ 0xCBF43926
unfolding crc32
check_value = refl

first_kept : recover (take 50 (written empty_log (put_a ∷ delete_a ∷ []))) ≡ put_a ∷ []
unfolding recover replay sync append_all append_at truncate_and_reset frame to_le payload_of
    encode_varlen bytes_eq from_le crc32 decode_payload decode_varlen
first_kept = refl

put_a-Fits : Fits 0 7 (97 ∷ []) (some (1 ∷ 2 ∷ []))
put_a-Fits = record {
  op_byte = omega arith;
  seq_u64 = omega arith;
  key_u32 = omega arith;
  value_u32 = omega arith;
}

delete_a-Fits : Fits 1 8 (97 ∷ []) none
delete_a-Fits = record {
  op_byte = omega arith;
  seq_u64 = omega arith;
  key_u32 = omega arith;
  value_u32 = omega arith;
}

pub put_a-IsWritable : IsWritable put_a
put_a-IsWritable = record {
  parts = put_a-Fits;
  whole_u32 = omega (arith, length-payload_of 0 7 (97 ∷ []) (some (1 ∷ 2 ∷ [])) put_a-Fits);
}

pub delete_a-IsWritable : IsWritable delete_a
delete_a-IsWritable = record {
  parts = delete_a-Fits;
  whole_u32 = omega (arith, length-payload_of 1 8 (97 ∷ []) none delete_a-Fits);
}

recover_cut_example :
    recover (take (16 + 34) (written empty_log (put_a ∷ delete_a ∷ [])))
    ≡ whole 34 (put_a ∷ delete_a ∷ [])
recover_cut_example =
    recover_cut empty_log (put_a ∷ delete_a ∷ []) 34 (put_a-IsWritable, (delete_a-IsWritable, tt))

checksum_differs :
    (crc32 (take (length (payload delete_a)) (take 4 (payload delete_a) ++ log_bytes (put_a ∷ [])))
      == crc32 (payload delete_a))
    ≡ false
unfolding crc32 crc_bytes crc_rounds log_bytes frame payload_of encode_varlen to_le
checksum_differs = refl

torn_frame_hides_example :
    recover
      (sync (
        append_all
          (open_append
            (written empty_log (put_a ∷ []) ++ take (8 + 4) (frame (payload delete_a)))
            1
            false)
          (put_a ∷ []))).file
    ≡ map read_back (put_a ∷ [])
torn_frame_hides_example =
    torn_frame_hides empty_log (put_a ∷ []) (put_a ∷ []) delete_a 4 1 false (put_a-IsWritable, tt)
      delete_a-IsWritable checksum_differs

put_a-IsSmall : IsSmall put_a
put_a-IsSmall = record {
  writable = put_a-IsWritable;
  short = omega (arith, length-payload_of 0 7 (97 ∷ []) (some (1 ∷ 2 ∷ [])) put_a-Fits);
}

delete_a-IsSmall : IsSmall delete_a
delete_a-IsSmall = record {
  writable = delete_a-IsWritable;
  short = omega (arith, length-payload_of 1 8 (97 ∷ []) none delete_a-Fits);
}

-- Two synced batches in a new log, with a restart between them that finds a record not yet synced.
abbrev two_batches : List LogCall
two_batches =
    call_append put_a
    ∷ call_sync
    ∷ call_append put_a
    ∷ call_reopen 1
    ∷ call_append delete_a
    ∷ call_sync
    ∷ []

-- Then the log is emptied, and a batch follows.
abbrev emptied : List LogCall
emptied =
    call_append delete_a
    ∷ call_sync
    ∷ call_append put_a
    ∷ call_truncate
    ∷ call_reopen 1
    ∷ call_append put_a
    ∷ call_append delete_a
    ∷ call_sync
    ∷ []

recover-promised_example :
    (recover (after_calls two_batches empty_log).file ≡ map read_back (put_a ∷ delete_a ∷ []))
    × (recover (after_calls emptied empty_log).file ≡ map read_back (put_a ∷ delete_a ∷ []))
unfolding promised promised_call
recover-promised_example = (
  recover-promised false two_batches
      (put_a-IsSmall, (tt, (put_a-IsSmall, (tt, (delete_a-IsSmall, (tt, tt)))))),
  recover-promised false emptied (
    delete_a-IsSmall,
    (tt, (put_a-IsSmall, (tt, (tt, (put_a-IsSmall, (delete_a-IsSmall, (tt, tt))))))),
  ),
)
