-- ===== src/Wal/Crash.antt =====
-- What is read back of a log that was cut off at any byte.
use shanshui_cunji.Prelude.{
  ℕ, zero, suc, ◌+◌, ◌-◌, ◌≤◌, ◌≡◌, refl, sym, ap, ◌∙◌, true, List, [], ◌∷◌, ◌++◌, arith,
  append-nil, append_assoc, ltb, if◌then◌else◌, length, length-append, take, drop, drop-append, All,
  Bool-cases, inl, inr, ◌⊎◌,
}
use shanshui_cunji.Bytes.{Bytes, IsU32, to_le, bytes_eq}
use shanshui_cunji.Bytes.Laws.{length-to_le}
use shanshui_cunji.Wal.{
  WalRecord, WalWriter, payload_of, frame, replay, recover, append_at, sync, truncate_and_reset,
  wal_header, has_header,
}
use shanshui_cunji.Wal.Frame.{Fits, reread, decode_payload-payload_of}
use shanshui_cunji.Wal.Replay.{take_past, replay-frame, length-frame, replay_cut_frame}

abbrev pub payload : WalRecord → Bytes
payload r = payload_of r.op r.key r.value r.seq

-- Every part of the record fits its format, and the payload its length.
pub record IsWritable (r : WalRecord) : Type 0 where
  pub parts : Fits r.op r.seq r.key r.value
  pub whole_u32 : IsU32 (length (payload r))

unfoldable pub log_bytes : List WalRecord → Bytes
log_bytes [] = []
log_bytes (r ∷ rs) = frame (payload r) ++ log_bytes rs

abbrev pub read_back : WalRecord → WalRecord
read_back r = record r { value = reread r.op r.value }

-- The records, as they are read back, whose frames lie within the first `n` bytes of the log.
unfoldable pub whole : ℕ → List WalRecord → List WalRecord
whole n [] = []
whole n (r ∷ rs) =
    let size = 8 + length (payload r) in
    let rest = whole (n - size) rs in if ltb n size then [] else read_back r ∷ rest

replay_nothing : (n fuel : ℕ) → replay fuel (take n []) ≡ []
unfolding replay
replay_nothing zero zero = refl
replay_nothing zero (suc fuel) = refl
replay_nothing (suc n) zero = refl
replay_nothing (suc n) (suc fuel) = refl

-- One whole record in front, with what is known of the ones behind it.
pub replay_next :
    (r : WalRecord) (rest : Bytes) (later : List WalRecord) (fuel : ℕ)
    → IsWritable r
    → length (frame (payload r) ++ rest) ≤ fuel
    → ((f : ℕ) → length rest ≤ f → replay f rest ≡ later)
    → replay fuel (frame (payload r) ++ rest) ≡ read_back r ∷ later
replay_next r rest later zero w room ih =
    absurd
      (omega (arith, length-append (frame (payload r)) rest, length-frame (payload r) w.whole_u32))
replay_next r rest later (suc fuel) w room ih =
    rw
      (
        replay-frame (payload r) w.whole_u32 fuel rest,
        decode_payload-payload_of r.op r.seq r.key r.value w.parts,
        ih fuel (
            omega (
              arith,
              length-append (frame (payload r)) rest,
              length-frame (payload r) w.whole_u32,
            )),
      )
      refl

replay_cut :
    (rs : List WalRecord) (n fuel : ℕ)
    → All IsWritable rs
    → length (take n (log_bytes rs)) ≤ fuel
    → replay fuel (take n (log_bytes rs)) ≡ whole n rs
unfolding log_bytes whole
replay_cut [] n fuel h hf = replay_nothing n fuel
replay_cut (r ∷ rs) n fuel (h, hs) hf = elim (Bool-cases (ltb n (8 + length (payload r)))) [
  | inl short ↦
      rw short (replay_cut_frame (payload r) h.whole_u32 fuel n (log_bytes rs) (ground arith))
  | inr long ↦
      let m = n - (8 + length (payload r)) in
      let split : n ≡ length (frame (payload r)) + m =
        ground (arith, length-frame (payload r) h.whole_u32) in
      let cut : take n (frame (payload r) ++ log_bytes rs)
          ≡ frame (payload r) ++ take m (log_bytes rs) =
        ap (λ (k : ℕ). take k (frame (payload r) ++ log_bytes rs)) split
        ∙ take_past (frame (payload r)) (log_bytes rs) m in
      rw (long, cut)
        (replay_next r (take m (log_bytes rs)) (whole m rs) fuel h (rw cut at hf)
          (λ f room. replay_cut rs m f hs room))
]

-- The header, the number in it, and whatever follows.
module _ (next_seq : ℕ) (rest : Bytes) where
  abbrev with_header : Bytes
  with_header = (wal_header ++ to_le 8 next_seq) ++ rest

  length-with_header : length with_header ≡ 16 + length rest
  length-with_header = omega (
    arith,
    length-append (wal_header ++ to_le 8 next_seq) rest,
    length-append wal_header (to_le 8 next_seq),
    length-to_le 8 next_seq,
  )

  has_header-with_header : has_header with_header ≡ true
  unfolding bytes_eq
  has_header-with_header = ground (arith, length-with_header)

  pub recover-with_header : recover with_header ≡ replay (16 + length rest) rest
  unfolding recover
  recover-with_header =
      let size : length (wal_header ++ to_le 8 next_seq) ≡ 16 =
        omega (arith, length-append wal_header (to_le 8 next_seq), length-to_le 8 next_seq) in
      let body : drop 16 with_header ≡ rest =
        rw size at (drop-append (wal_header ++ to_le 8 next_seq) rest) in
      rw (has_header-with_header, length-with_header, body) refl

-- The writer after appending the records one by one.
unfoldable pub append_all : WalWriter → List WalRecord → WalWriter
append_all w [] = w
append_all w (r ∷ rs) = append_all (append_at w r.op r.key r.value r.seq) rs

pub append_all-buf :
    (rs : List WalRecord) (w : WalWriter)
    → ((append_all w rs).buf ≡ w.buf ++ log_bytes rs) × ((append_all w rs).file ≡ w.file)
unfolding append_all append_at log_bytes
append_all-buf [] w = (sym (append-nil w.buf), refl)
append_all-buf (r ∷ rs) w =
    let (buf, file) = append_all-buf rs (append_at w r.op r.key r.value r.seq) in
    (buf ∙ append_assoc w.buf (frame (payload r)) (log_bytes rs), file)

pub Bytes-cases : (xs : Bytes) → (xs ≡ []) ⊎ ((b : ℕ) × (bs : Bytes) × (xs ≡ b ∷ bs))
Bytes-cases [] = inl refl
Bytes-cases (b ∷ bs) = inr (b, bs, refl)

pub sync-file : (w : WalWriter) → (sync w).file ≡ w.file ++ w.buf
unfolding sync
sync-file w = elim (Bytes-cases w.buf) [
  | inl e ↦ rw e (sym (append-nil w.file))
  | inr (b, bs, e) ↦ rw e refl
]

-- The file of a log that was emptied, and to which the records were appended and synced.
abbrev pub written : WalWriter → List WalRecord → Bytes
written w rs = (sync (append_all (truncate_and_reset w) rs)).file

pub written_lem :
    (w : WalWriter) (rs : List WalRecord)
    → written w rs ≡ (wal_header ++ to_le 8 w.next_seq) ++ log_bytes rs
unfolding truncate_and_reset
written_lem w rs =
    let w' = truncate_and_reset w in
    let (buf, file) = append_all-buf rs w' in sync-file (append_all w' rs) ∙ rw (buf, file) refl

-- Records that are appended to an emptied log and synced are read back up to any byte behind the
-- header at which the file is cut off: exactly those whose frames lie whole before the cut, in their
-- order. This is for records that fit their formats; an empty value of a delete comes back as none,
-- and an absent value of another operation as an empty one.
pub recover_cut :
    (w : WalWriter) (rs : List WalRecord) (n : ℕ)
    → All IsWritable rs
    → recover (take (16 + n) (written w rs)) ≡ whole n rs
recover_cut w rs n h =
    let head = wal_header ++ to_le 8 w.next_seq in
    let size : length head ≡ 16 =
      omega (arith, length-append wal_header (to_le 8 w.next_seq), length-to_le 8 w.next_seq) in
    let cut : take (16 + n) (head ++ log_bytes rs) ≡ head ++ take n (log_bytes rs) =
      rw size at (take_past head (log_bytes rs) n) in
    rw (written_lem w rs, cut, recover-with_header w.next_seq (take n (log_bytes rs)))
      (replay_cut rs n (16 + length (take n (log_bytes rs))) h (omega arith))
