-- ===== src/Wal/Ring/Durable.antt =====
-- What the ring log keeps: records that are synced, read back after the file is opened again.
use mathlib.Core.Path.{subst}
use shanshui_cunji.Prelude.{
  ℕ, ◌+◌, ◌%◌, ◌^◌, ◌-◌, ◌≤◌, ◌≡◌, refl, sym, ap, ◌∙◌, false, List, [], ◌∷◌, ◌++◌, arith,
  append_assoc, append-nil, ltb, ◌==◌, length, length-append, length-replicate, All, map, max,
  replicate,
}
use shanshui_cunji.Errors.{Result, ok, err, panic}
use shanshui_cunji.Bytes.{IsU64}
use shanshui_cunji.Wal.{WalRecord, frame}
use shanshui_cunji.Wal.Crash.{payload, IsWritable, log_bytes, read_back}
use shanshui_cunji.Wal.Ring.{
  RingWal, ring_header, read_tail, write_at, write_ring_header, append_at, sync, recover_records,
  open_or_create, extend,
}
use shanshui_cunji.Wal.Ring.Write.{parts, length-write_at, write_at_middle}
use shanshui_cunji.Wal.Ring.Safety.{total, IsWellFormed, ring-IsWellFormed}
use shanshui_cunji.Wal.Ring.Holds.{
  head, Holds, frames, sync-Holds, read_tail-head, scan-Holds, length-head,
}

-- The tail and the records that an opened log starts with.
abbrev pub tail_and_records : Result (RingWal × List WalRecord) → Result (ℕ × List WalRecord)
tail_and_records (ok (r, recs)) = ok (r.tail, recs)
tail_and_records (err e) = err e
tail_and_records panic = panic

open-Holds :
    (r : RingWal) (rs : List WalRecord)
    → Holds r rs
    → All IsWritable rs
    → ring_header + 8 ≤ r.size
    → r.size ≤ length r.file
    → tail_and_records (open_or_create r.file r.size) ≡ ok (r.tail, map read_back rs)
unfolding open_or_create
open-Holds r rs h w big full =
    let none_missing : r.size - length r.file ≡ 0 = omega arith in
    let enough : extend r.file r.size ≡ r.file = rw none_missing (append-nil r.file) in
    let old : (length r.file == 0) ≡ false = ground arith in
    let large : ltb r.size (ring_header + 8) ≡ false = ground arith in
    let tail_read : read_tail r.file ≡ ok r.tail =
      ap read_tail h.file ∙ read_tail-head r.tail _ h.u64 in
    rw (large, old, enough, tail_read, scan-Holds r rs h w) refl

-- `append_at` for each record, in their order.
unfoldable pub append_all : RingWal → List WalRecord → RingWal
append_all r [] = r
append_all r (x ∷ xs) = append_all (append_at r x.op x.key x.value x.seq).1 xs

-- What appending does to a log: the records are pending, and no more is changed than this.
record Appended (r r' : RingWal) (rs : List WalRecord) : Type 0 where
  more : r'.pending ≡ r.pending ++ frames rs
  file : r'.file ≡ r.file
  tail : r'.tail ≡ r.tail
  size : r'.size ≡ r.size

append_all-Appended :
    (rs : List WalRecord) (r : RingWal)
    → r.pending_bytes + length (log_bytes rs) ≤ r.size - ring_header
    → Appended r (append_all r rs) rs
unfolding append_all append_at log_bytes
append_all-Appended [] r h = record {
  more = sym (append-nil r.pending);
  file = refl;
  tail = refl;
  size = refl;
}
append_all-Appended (x ∷ xs) r h =
    let one = frame (payload x) in
    let room : ltb (r.size - ring_header) (r.pending_bytes + length one) ≡ false =
      ground (arith, length-append one (log_bytes xs)) in
    let r' : RingWal = record r {
      next_seq = max r.next_seq ((x.seq + 1) % 2 ^ 64);
      pending = r.pending ++ (one ∷ []);
      pending_bytes = r.pending_bytes + length one;
    } in
    let later = append_all-Appended xs r' (omega (arith, length-append one (log_bytes xs))) in
    rw room (record {
      more = later.more ∙ append_assoc r.pending (one ∷ []) (frames xs);
      file = later.file;
      tail = later.tail;
      size = later.size;
    })

pub append_all-IsWellFormed :
    (rs : List WalRecord) (r : RingWal) → IsWellFormed r → IsWellFormed (append_all r rs)
unfolding append_all
append_all-IsWellFormed [] r w = w
append_all-IsWellFormed (x ∷ xs) r w =
    append_all-IsWellFormed xs _ ((ring-IsWellFormed r w).0 x.op x.key x.value x.seq)

-- A log that answers `ok` and holds the records, in memory and when it is opened again.
abbrev pub Durable : ℕ → List WalRecord → Result (Unit {0}) × RingWal → Type 0
Durable size rs done =
    (done.0 ≡ ok tt)
    × (recover_records done.1 ≡ ok (map read_back rs))
    × (tail_and_records (open_or_create done.1.file size) ≡ ok (done.1.tail, map read_back rs))

-- Records that are appended to a well-formed ring log with nothing pending, and that fit between its
-- tail and its end, are durable after `sync`: it returns `ok`, and both a scan and the file opened
-- anew give the older records and then these, in their order. This is for records that fit their
-- formats, and for a size of 28 bytes or more that is below 2^64.
pub sync-Durable :
    (r : RingWal) (old new : List WalRecord)
    → IsWellFormed r
    → Holds r old
    → r.pending ≡ []
    → All IsWritable (old ++ new)
    → ring_header + 8 ≤ r.size
    → IsU64 r.size
    → r.tail + length (log_bytes new) ≤ r.size
    → Durable r.size (old ++ new) (sync (append_all r new))
unfolding recover_records total
sync-Durable r old new w h none_pending ws big small fits =
    let empty : r.pending_bytes ≡ 0 = w.counted ∙ ap total none_pending in
    let a = append_all-Appended new r (omega (arith, empty, h.tail)) in
    let w' = append_all-IsWellFormed new r w in
    let h' : Holds (append_all r new) old = record {
      rest = h.rest;
      file = a.file ∙ h.file ∙ ap (λ t. head t ++ (log_bytes old ++ h.rest)) (sym a.tail);
      tail = a.tail ∙ h.tail;
      u64 = omega (arith, a.tail, h.u64);
    } in
    let more = a.more ∙ ap (λ p. p ++ frames new) none_pending in
    let (done, held, size) =
      sync-Holds (append_all r new) old new h' more (omega (arith, a.tail, a.size)) w'.full
        (omega (arith, a.size)) in
    let r' = (sync (append_all r new)).1 in
    let scanned = scan-Holds r' (old ++ new) held ws in
    let opened =
      open-Holds r' (old ++ new) held ws (omega (arith, size, a.size))
        (ring-IsWellFormed (append_all r new) w').2.full in
    (
      done,
      rw scanned refl,
      subst
          (λ s.
            tail_and_records (open_or_create r'.file s) ≡ ok (r'.tail, map read_back (old ++ new)))
          (size ∙ a.size) opened,
    )

-- A log in a new file.
abbrev pub created : ℕ → RingWal
created size = record {
  file = write_ring_header (replicate size 0) ring_header;
  size = size;
  tail = ring_header;
  next_seq = 1;
  flushed_seq = 0;
  pending = [];
  pending_bytes = 0;
  index = [];
  max_written_seq = 0;
}

pub created-Holds : (size : ℕ) → ring_header ≤ size → Holds (created size) []
unfolding write_ring_header log_bytes
created-Holds size h =
    let (a, x, e, l) =
      parts {A = ℕ} 20 (replicate size 0) (omega (arith, length-replicate {A = ℕ} size 0)) in
    record {
      rest = x;
      file =
          ap (λ f. write_at f 0 (head 20)) e
          ∙ write_at_middle [] a x (head 20) 0 refl (length-head 20 ∙ sym l);
      tail = refl;
      u64 = omega arith;
    }

pub created-IsWellFormed : (size : ℕ) → ring_header ≤ size → IsWellFormed (created size)
unfolding total write_ring_header
created-IsWellFormed size h =
    let zeros = length-replicate {A = ℕ} size 0 in
    record {
      tail_low = omega arith;
      tail_high = h;
      full = omega (
        arith,
        zeros,
        length-write_at (replicate size 0) (head 20) 0 (omega (arith, zeros, length-head 20)),
      );
      counted = refl;
      room = omega arith;
    }

-- What a new file is opened as.
open_or_create-created :
    (size : ℕ) → ring_header + 8 ≤ size → open_or_create [] size ≡ ok (created size, [])
unfolding open_or_create
open_or_create-created size h =
    let large : ltb size (ring_header + 8) ≡ false = ground arith in
    let whole : size - 0 ≡ size = omega arith in rw (large, whole) refl

-- A new file of 28 bytes or more below 2^64 is opened as a log without records, and records that
-- are appended to it and fit into it are durable after `sync`: `ok` is returned, and both a scan and
-- the file opened again give them in their order. This is for records that fit their formats.
pub create-Durable :
    (size : ℕ) (rs : List WalRecord)
    → All IsWritable rs
    → ring_header + 8 ≤ size
    → IsU64 size
    → ring_header + length (log_bytes rs) ≤ size
    → (r : RingWal) × (open_or_create [] size ≡ ok (r, []))
      × Durable size rs (sync (append_all r rs))
create-Durable size rs ws big small fits = (
  created size,
  open_or_create-created size big,
  sync-Durable (created size) [] rs (created-IsWellFormed size (omega arith))
      (created-Holds size (omega arith)) refl ws big small fits,
)
