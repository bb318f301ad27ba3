-- ===== src/Wal/Torn.antt =====
-- What becomes of records that are appended behind a frame that a crash has cut off.
use shanshui_cunji.Prelude.{
  ℕ, zero, suc, ◌+◌, ◌≤◌, ◌≡◌, refl, Bool, false, List, [], ◌∷◌, ◌++◌, arith, append_assoc, ltb,
  ◌==◌, length, take, map, All, Bool-cases, inl, inr,
}
use shanshui_cunji.Bytes.{Bytes, IsU32, to_le}
use shanshui_cunji.Wal.{
  WalRecord, WalWriter, frame, crc32, replay, recover, sync, open_append, wal_header,
}
use shanshui_cunji.Wal.Replay.{take_past, prefix, length-prefix, frame-prefix, replay-prefix}
use shanshui_cunji.Wal.Crash.{
  payload, IsWritable, log_bytes, read_back, replay_next, append_all, append_all-buf, sync-file,
  written, written_lem, recover-with_header,
}

-- A frame cut off behind its checksum, with other bytes following, ends the replay.
torn_ends :
    (p x : Bytes) (m fuel : ℕ)
    → IsU32 (length p)
    → (crc32 (take (length p) (take m p ++ x)) == crc32 p) ≡ false
    → replay fuel (take (8 + m) (frame p) ++ x) ≡ []
torn_ends p x m zero h bad = unfold replay in refl
torn_ends p x m (suc fuel) h bad =
    let cut : take (8 + m) (prefix p h ++ p) ≡ prefix p h ++ take m p =
      rw (length-prefix p h) at (take_past (prefix p h) p m) in
    rw
      (
        frame-prefix p h,
        cut,
        append_assoc (prefix p h) (take m p) x,
        replay-prefix p h fuel (take m p ++ x),
        bad,
      )
      (elim (Bool-cases (ltb (length (take m p ++ x)) (length p))) [
        | inl short ↦ rw short refl
        | inr long ↦ rw long refl
      ])

replay_before :
    (rs : List WalRecord) (x : Bytes) (fuel : ℕ)
    → All IsWritable rs
    → length (log_bytes rs ++ x) ≤ fuel
    → ((f : ℕ) → replay f x ≡ [])
    → replay fuel (log_bytes rs ++ x) ≡ map read_back rs
unfolding log_bytes
replay_before [] x fuel h room ends = ends fuel
replay_before (r ∷ rs) x fuel (h, hs) room ends =
    rw (append_assoc (frame (payload r)) (log_bytes rs) x) (
      replay_next r (log_bytes rs ++ x) (map read_back rs) fuel h
        (rw (append_assoc (frame (payload r)) (log_bytes rs) x) at room)
        (λ f room'. replay_before rs x f hs room' ends))

-- A crash leaves the frame of `r` cut off behind its checksum. The log is opened again, and more
-- records are appended and synced. None of those is read back then, unless the bytes behind the cut
-- happen to have the checksum of `r`: the replay ends at the torn frame, which is still there. This
-- is for records that fit their formats.
pub torn_frame_hides :
    (w : WalWriter) (rs later : List WalRecord) (r : WalRecord) (m next_seq : ℕ) (perf_mode : Bool)
    → All IsWritable rs
    → IsWritable r
    → (crc32 (take (length (payload r)) (take m (payload r) ++ log_bytes later))
        == crc32 (payload r))
      ≡ false
    → recover
        (sync (
          append_all
            (open_append (written w rs ++ take (8 + m) (frame (payload r))) next_seq perf_mode)
            later)).file
      ≡ map read_back rs
unfolding open_append
torn_frame_hides w rs later r m next_seq perf_mode hs h bad =
    let torn = take (8 + m) (frame (payload r)) in
    let w' = open_append (written w rs ++ torn) next_seq perf_mode in
    let (buf, file) = append_all-buf later w' in
    let head = wal_header ++ to_le 8 w.next_seq in
    let regroup : ((head ++ log_bytes rs) ++ torn) ++ log_bytes later
        ≡ head ++ (log_bytes rs ++ (torn ++ log_bytes later)) =
      simp append_assoc in
    rw
      (
        sync-file (append_all w' later),
        buf,
        file,
        written_lem w rs,
        regroup,
        recover-with_header w.next_seq (log_bytes rs ++ (torn ++ log_bytes later)),
      )
      (replay_before rs (torn ++ log_bytes later)
        (16 + length (log_bytes rs ++ (torn ++ log_bytes later))) hs (omega arith)
        (λ f. torn_ends (payload r) (log_bytes later) m f h.whole_u32 bad))
