-- ===== src/Wal/Ring/Scan.antt =====
-- What the ring log reads back: the records that were synced without a wrap.
use shanshui_cunji.Prelude.{
  ℕ, zero, suc, ◌+◌, ◌≤◌, ◌≡◌, refl, sym, ap, true, false, List, [], ◌∷◌, ◌++◌, arith, append_assoc,
  append-nil, ltb, leb, length, length-append, slice, slice_middle, All, map, ==_refl,
}
use shanshui_cunji.Errors.{ok, ◌>>=◌}
use shanshui_cunji.Bytes.{Bytes, from_le}
use shanshui_cunji.Wal.{WalRecord, frame, crc32}
use shanshui_cunji.Wal.Frame.{decode_payload-payload_of}
use shanshui_cunji.Wal.Replay.{
  prefix, length-prefix, frame-prefix, length_read, crc_read, length-frame,
}
use shanshui_cunji.Wal.Crash.{payload, IsWritable, log_bytes, read_back}
use shanshui_cunji.Wal.Ring.{read_at, scan_loop}

pub read_at_middle :
    (a mid rest : Bytes) (off n : ℕ)
    → off ≡ length a
    → n ≡ length mid
    → read_at (a ++ (mid ++ rest)) off n ≡ ok mid
unfolding read_at
read_at_middle a mid rest off n ho hn =
    let fits : ltb (length (a ++ (mid ++ rest))) (off + n) ≡ false =
      ground (arith, length-append a (mid ++ rest), length-append mid rest) in
    rw (fits, slice_middle a mid rest off (off + n) ho (ap (λ k. off + k) hn)) refl

-- Where the records stand, the first one at `pos`.
unfoldable pub places : ℕ → List WalRecord → List (ℕ × ℕ)
places pos [] = []
places pos (r ∷ rs) = (pos, r.seq) ∷ places (pos + 8 + length (payload r)) rs

module _ (r : WalRecord) (w : IsWritable r) (pre rest : Bytes) where
  abbrev file : Bytes
  file = pre ++ (frame (payload r) ++ rest)

  abbrev head : Bytes
  head = prefix (payload r) w.whole_u32

  file_parts : file ≡ pre ++ (head ++ (payload r ++ rest))
  file_parts =
      rw (frame-prefix (payload r) w.whole_u32)
        (ap (λ y. pre ++ y) (append_assoc (head) (payload r) rest))

  head_read : read_at file (length pre) 8 ≡ ok (head)
  head_read = rw file_parts (
      read_at_middle pre (head) (payload r ++ rest) (length pre) 8 refl
        (sym (length-prefix (payload r) w.whole_u32)))

  payload_read : read_at file (length pre + 8) (length (payload r)) ≡ ok (payload r)
  payload_read =
      rw (file_parts, ← append_assoc pre (head) (payload r ++ rest))
        (read_at_middle (pre ++ head) (payload r) rest (length pre + 8) (length (payload r))
          (omega (arith, length-append pre (head), length-prefix (payload r) w.whole_u32)) refl)

  len_read : from_le (slice (head) 0 4) ≡ length (payload r)
  len_read = rw (append-nil) at (length_read (payload r) w.whole_u32 [])

  sum_read : from_le (slice (head) 4 8) ≡ crc32 (payload r)
  sum_read = rw (append-nil) at (crc_read (payload r) w.whole_u32 [])

scan_round :
    (r : WalRecord) (pre rest : Bytes) (fuel tail : ℕ)
    → IsWritable r
    → length pre + 8 + length (payload r) ≤ tail
    → scan_loop (suc fuel) (pre ++ (frame (payload r) ++ rest)) tail (length pre) ≡ (
        scan_loop fuel
          (pre ++ (frame (payload r) ++ rest))
          tail
          (length pre + 8 + length (payload r))
        >>= λ (rs, index). ok (read_back r ∷ rs, (length pre, r.seq) ∷ index))
unfolding scan_loop
scan_round r pre rest fuel tail w h =
    let more : leb (length pre + 8) tail ≡ true = ground arith in
    let whole : ltb tail (length pre + 8 + length (payload r)) ≡ false = ground arith in
    rw
      (
        more,
        head_read r w pre rest,
        len_read r w pre rest,
        whole,
        payload_read r w pre rest,
        sum_read r w pre rest,
        ==_refl (crc32 (payload r)),
        decode_payload-payload_of r.op r.seq r.key r.value w.parts,
      )
      refl

scan_end :
    (fuel : ℕ) (file : Bytes) (tail pos : ℕ)
    → tail ≡ pos
    → scan_loop fuel file tail pos ≡ ok ([], [])
unfolding scan_loop
scan_end zero file tail pos e = refl
scan_end (suc fuel) file tail pos e =
    let done : leb (pos + 8) tail ≡ false = ground arith in rw done refl

-- The records from `pos` on, up to the tail, on fuel that is enough.
pub scan_log :
    (rs : List WalRecord) (pre rest : Bytes) (fuel tail : ℕ)
    → All IsWritable rs
    → tail ≡ length pre + length (log_bytes rs)
    → length (log_bytes rs) ≤ fuel
    → scan_loop fuel (pre ++ (log_bytes rs ++ rest)) tail (length pre)
      ≡ ok (map read_back rs, places (length pre) rs)
unfolding log_bytes places
scan_log [] pre rest fuel tail ws e room =
    scan_end fuel (pre ++ rest) tail (length pre) (omega arith)
scan_log (r ∷ rs) pre rest zero tail (w, ws) e room = absurd (
    omega (
      arith,
      length-append (frame (payload r)) (log_bytes rs),
      length-frame (payload r) w.whole_u32,
    ))
scan_log (r ∷ rs) pre rest (suc fuel) tail (w, ws) e room =
    let one = frame (payload r) in
    let l = length-frame (payload r) w.whole_u32 in
    let k = length-append one (log_bytes rs) in
    let next : length (pre ++ one) ≡ length pre + 8 + length (payload r) =
      omega (arith, length-append pre one, l) in
    let moved : pre ++ (one ++ (log_bytes rs ++ rest)) ≡ (pre ++ one) ++ (log_bytes rs ++ rest) =
      sym (append_assoc pre one _) in
    let later =
      scan_log rs (pre ++ one) rest fuel tail ws (omega (arith, e, k, l, next))
        (omega (arith, k, l)) in
    rw
      (
        append_assoc one (log_bytes rs) rest,
        scan_round r pre (log_bytes rs ++ rest) fuel tail w (omega (arith, e, k, l)),
        moved,
        ← next,
        later,
      )
      refl
