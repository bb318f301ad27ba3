-- ===== src/Wal/Ring.antt =====
-- src/wal.rs: the ring log, in a file of a fixed size. The file is its bytes. A read beyond its end
-- fails, and every other call of it succeeds; `last_sync` and the backend for `fsync` are left out.
pub mod Plan
pub mod Write
pub mod Safety
pub mod Scan
pub mod Durable
pub mod Holds
use shanshui_cunji.Prelude.{
  ℕ, zero, suc, ◌+◌, ◌-◌, ◌%◌, ◌^◌, Bool, true, false, not, Option, none, some, List, [], ◌∷◌, ◌++◌,
  ltb, leb, ◌==◌, if◌then◌else◌, length, take, drop, slice, replicate, max,
}
use shanshui_cunji.Errors.{
  Result, ok, err, panic, config, corrupted, io, wal_full, fail_if, ◌>>=◌, ◌>>◌,
}
use shanshui_cunji.Bytes.{Bytes, to_le, from_le, bytes_eq}
use shanshui_cunji.Wal.{WalRecord, payload_of, frame, crc32, decode_payload}

abbrev pub ring_header : ℕ
ring_header = 20

-- "RGW1"
abbrev pub ring_magic : Bytes
ring_magic = 82 ∷ 71 ∷ 87 ∷ 49 ∷ []

pub record RingWal : Type 0 where
  pub file : Bytes
  pub size : ℕ
  pub tail : ℕ
  pub next_seq : ℕ
  pub flushed_seq : ℕ
  pub pending : List Bytes
  pub pending_bytes : ℕ
  pub index : List (ℕ × ℕ)
  pub max_written_seq : ℕ

-- `seek` and `write_all`: what lies between the end of the file and the position is filled with zeros.
unfoldable pub write_at : Bytes → ℕ → Bytes → Bytes
write_at file off data' =
    take off (file ++ replicate (off - length file) 0) ++ (data' ++ drop (off + length data') file)

unfoldable pub read_at : Bytes → ℕ → ℕ → Result Bytes
read_at file off n = if ltb (length file) (off + n) then err io else ok (slice file off (off + n))

unfoldable pub write_ring_header : Bytes → ℕ → Bytes
write_ring_header file tail = write_at file 0 (ring_magic ++ (replicate 8 0 ++ to_le 8 tail))

-- `set_len` of a file that is shorter.
abbrev pub extend : Bytes → ℕ → Bytes
extend file size = file ++ replicate (size - length file) 0

unfoldable pub read_tail : Bytes → Result ℕ
read_tail file = do
  h ← read_at file 0 ring_header
  fail_if (not (bytes_eq (take 4 h) ring_magic)) corrupted
  ok (from_le (slice h 12 20))

abbrev pub Found : Type 0
Found = List WalRecord × List (ℕ × ℕ)

-- The match on `decode_payload`: a record goes in front of the later ones, an error ends the scan.
abbrev pub keep_found : ℕ → Result WalRecord → Result Found → Result Found
keep_found pos (ok r) later = later >>= λ (rs, index). ok (r ∷ rs, (pos, r.seq) ∷ index)
keep_found pos (err e) later = ok ([], [])
keep_found pos panic later = panic

-- The loop of `scan_ring` from `pos` on, on fuel; a round moves on by eight bytes at least.
unfoldable pub scan_loop : ℕ → Bytes → ℕ → ℕ → Result Found
scan_loop zero file tail pos = ok ([], [])
scan_loop (suc fuel) file tail pos =
    let round = (do
      h ← read_at file pos 8
      let len = from_le (slice h 0 4)
      let crc = from_le (slice h 4 8)
      let body = (do
        payload ← read_at file (pos + 8) len
        let later =
            keep_found pos (decode_payload payload) (scan_loop fuel file tail (pos + 8 + len))
        if crc32 payload == crc then later else ok ([], []))
      if ltb tail (pos + 8 + len) then ok ([], []) else body) in
    if leb (pos + 8) tail then round else ok ([], [])

unfoldable pub scan_ring : Bytes → ℕ → Result Found
scan_ring file tail = scan_loop tail file tail ring_header

abbrev pub max_of : List ℕ → ℕ
max_of [] = 0
max_of (n ∷ ns) = max n (max_of ns)

abbrev pub seqs : List WalRecord → List ℕ
seqs [] = []
seqs (r ∷ rs) = r.seq ∷ seqs rs

abbrev pub index_seqs : List (ℕ × ℕ) → List ℕ
index_seqs [] = []
index_seqs ((off, seq) ∷ index) = seq ∷ index_seqs index

-- A new file is empty.
unfoldable pub open_or_create : Bytes → ℕ → Result (RingWal × List WalRecord)
open_or_create file size =
    let ring : RingWal = record {
      file = extend file size;
      size = size;
      tail = ring_header;
      next_seq = 1;
      flushed_seq = 0;
      pending = [];
      pending_bytes = 0;
      index = [];
      max_written_seq = 0;
    } in
    let created = record ring { file = write_ring_header ring.file ring_header } in
    let opened = (do
      tail ← read_tail ring.file
      (recs, index) ← scan_ring ring.file tail
      ok (
        record ring { tail = tail; index = index; max_written_seq = max_of (seqs recs) },
        recs,
      )) in
    if ltb size (ring_header + 8)
    then err config
    else if length file == 0
    then ok (created, [])
    else opened

-- The outcome of an operation, and the log after it.
abbrev pub Outcome : Type 0 → Type 0
Outcome A = Result A × RingWal

unfoldable pub append_at : RingWal → ℕ → Bytes → Option Bytes → ℕ → Outcome (Unit {0})
append_at r op key value seq =
    let r' = record r { next_seq = max r.next_seq ((seq + 1) % 2 ^ 64) } in
    let rec = frame (payload_of op key value seq) in
    if ltb (r.size - ring_header) (r.pending_bytes + length rec) then (err wal_full, r') else (
      ok tt,
      record r' { pending = r.pending ++ (rec ∷ []); pending_bytes = r.pending_bytes + length rec },
    )

unfoldable pub append : RingWal → ℕ → Bytes → Option Bytes → Outcome ℕ
append r op key value =
    let done =
      append_at (record r { next_seq = (r.next_seq + 1) % 2 ^ 64 }) op key value r.next_seq in
    (done.0 >> ok r.next_seq, done.1)

-- Where a record of that length goes: behind the last one, or at the start of the ring.
unfoldable pub place : ℕ → Bool → ℕ → ℕ → Result ℕ
place size unflushed pos len = do
  let wraps = ltb size (pos + len)
  let start = if wraps then ring_header else pos
  fail_if (if wraps then unflushed else false) wal_full
  fail_if (ltb size (start + len)) wal_full
  ok start

-- The loop of `sync` over the pending records: their places, and the new tail.
unfoldable pub plan : ℕ → Bool → ℕ → List Bytes → Result (List (ℕ × Bytes) × ℕ)
plan size unflushed pos [] = ok ([], pos)
plan size unflushed pos (rec ∷ recs) = do
  start ← place size unflushed pos (length rec)
  (later, tail) ← plan size unflushed (start + length rec) recs
  ok ((start, rec) ∷ later, tail)

unfoldable pub write_plan : Bytes → List (ℕ × Bytes) → Bytes
write_plan file [] = file
write_plan file ((off, rec) ∷ later) = write_plan (write_at file off rec) later

abbrev pub plan_index : List (ℕ × Bytes) → List (ℕ × ℕ)
plan_index [] = []
plan_index ((off, rec) ∷ later) = (off, from_le (slice rec 8 16)) ∷ plan_index later

-- `sort_by_key` on the offsets keeps the order of equal ones.
abbrev pub insert_offset : ℕ × ℕ → List (ℕ × ℕ) → List (ℕ × ℕ)
insert_offset e [] = e ∷ []
insert_offset e (x ∷ xs) =
    let later = insert_offset e xs in if leb e.0 x.0 then e ∷ (x ∷ xs) else x ∷ later

abbrev pub sort_index : List (ℕ × ℕ) → List (ℕ × ℕ)
sort_index [] = []
sort_index (x ∷ xs) = insert_offset x (sort_index xs)

abbrev pub commit : RingWal → Result (List (ℕ × Bytes) × ℕ) → Outcome (Unit {0})
commit r (err e) = (err e, r)
commit r panic = (panic, r)
commit r (ok (placed, tail)) =
    let index = sort_index (r.index ++ plan_index placed) in
    (
      ok tt,
      record r {
        file = write_plan (write_ring_header r.file tail) placed;
        tail = tail;
        index = index;
        max_written_seq = max_of (index_seqs index);
        pending = [];
        pending_bytes = 0;
      },
    )

abbrev pub sync_pending : RingWal → List Bytes → Outcome (Unit {0})
sync_pending r [] = (ok tt, r)
sync_pending r (rec ∷ recs) =
    commit r (plan r.size (ltb r.flushed_seq r.max_written_seq) r.tail (rec ∷ recs))

unfoldable pub sync : RingWal → Outcome (Unit {0})
sync r = sync_pending r r.pending

unfoldable pub set_flushed_seq : RingWal → ℕ → RingWal
set_flushed_seq r seq = record r { flushed_seq = max r.flushed_seq seq }

unfoldable pub resume_seq : RingWal → ℕ → RingWal
resume_seq r next_seq = record r { next_seq = next_seq }

unfoldable pub recover_records : RingWal → Result (List WalRecord)
recover_records r = scan_ring r.file r.tail >>= λ (recs, index). ok recs
