-- ===== src/Wal/Ring/Holds.antt =====
-- The records that a ring log holds in its file, and how `sync` adds to them.
use mathlib.Core.Path.{subst}
use shanshui_cunji.Prelude.{
  ℕ, ◌+◌, ◌≤◌, ◌≡◌, refl, sym, ap, ◌∙◌, Bool, List, [], ◌∷◌, ◌++◌, arith, append_assoc, append-nil,
  ltb, length, length-append, All, map, replicate,
}
use shanshui_cunji.Errors.{Result, ok}
use shanshui_cunji.Bytes.{Bytes, IsU64, to_le, bytes_eq}
use shanshui_cunji.Bytes.Laws.{length-to_le, from_le-to_le}
use shanshui_cunji.Wal.{WalRecord, frame}
use shanshui_cunji.Wal.Crash.{payload, IsWritable, log_bytes, read_back}
use shanshui_cunji.Wal.Ring.{
  RingWal, ring_header, ring_magic, read_tail, scan_loop, scan_ring, place, plan, write_at,
  write_plan, write_ring_header, sync, sync_pending, commit,
}
use shanshui_cunji.Wal.Ring.Write.{parts, write_at_middle}
use shanshui_cunji.Wal.Ring.Scan.{read_at_middle, places, scan_log}

abbrev pub head : ℕ → Bytes
head tail = ring_magic ++ (replicate 8 0 ++ to_le 8 tail)

pub length-head : (tail : ℕ) → length (head tail) ≡ 20
length-head tail = omega (arith, length-to_le 8 tail)

-- The file holds these records behind its header, and the header and the log agree on the tail.
pub record Holds (r : RingWal) (rs : List WalRecord) : Type 0 where
  pub rest : Bytes
  pub file : r.file ≡ head r.tail ++ (log_bytes rs ++ rest)
  pub tail : r.tail ≡ ring_header + length (log_bytes rs)
  pub u64 : IsU64 r.tail

-- The places of records that follow each other.
unfoldable consecutive : ℕ → List WalRecord → List (ℕ × Bytes)
consecutive pos [] = []
consecutive pos (r ∷ rs) =
    (pos, frame (payload r)) ∷ consecutive (pos + length (frame (payload r))) rs

abbrev pub frames : List WalRecord → List Bytes
frames rs = map (λ r. frame (payload r)) rs

place_behind :
    (size : ℕ) (unflushed : Bool) (pos len : ℕ)
    → pos + len ≤ size
    → place size unflushed pos len ≡ ok pos
unfolding place
place_behind size unflushed pos len h = ground arith

plan-consecutive :
    (rs : List WalRecord) (size : ℕ) (unflushed : Bool) (pos : ℕ)
    → pos + length (log_bytes rs) ≤ size
    → plan size unflushed pos (frames rs) ≡ ok (consecutive pos rs, pos + length (log_bytes rs))
unfolding plan log_bytes consecutive
plan-consecutive [] size unflushed pos h = let z : pos + 0 ≡ pos = omega arith in rw z refl
plan-consecutive (r ∷ rs) size unflushed pos h =
    let one = frame (payload r) in
    let l = length-append one (log_bytes rs) in
    let sum : pos + length one + length (log_bytes rs) ≡ pos + length (one ++ log_bytes rs) =
      omega (arith, l) in
    rw
      (
        place_behind size unflushed pos (length one) (omega (arith, l)),
        plan-consecutive rs size unflushed (pos + length one) (omega (arith, l)),
        sum,
      )
      refl

write-consecutive :
    (rs : List WalRecord) (a b c : Bytes)
    → length b ≡ length (log_bytes rs)
    → write_plan (a ++ (b ++ c)) (consecutive (length a) rs) ≡ a ++ (log_bytes rs ++ c)
unfolding write_plan log_bytes consecutive
write-consecutive [] a [] c h = refl
write-consecutive [] a (x ∷ b) c h = absurd (omega arith)
write-consecutive (r ∷ rs) a b c h =
    let one = frame (payload r) in
    let l = length-append one (log_bytes rs) in
    let (x, y, e, k) = parts (length one) b (omega (arith, l, h)) in
    let m : length (a ++ one) ≡ length a + length one = length-append a one in
    let first : write_at (a ++ (b ++ c)) (length a) one ≡ (a ++ one) ++ (y ++ c) =
      rw (e, append_assoc x y c, write_at_middle a x (y ++ c) one (length a) refl (sym k))
        (sym (append_assoc a one (y ++ c))) in
    let others : write_plan ((a ++ one) ++ (y ++ c)) (consecutive (length (a ++ one)) rs)
        ≡ (a ++ one) ++ (log_bytes rs ++ c) =
      write-consecutive rs (a ++ one) y c
        (omega (arith, l, h, k, ap length e, length-append x y)) in
    ap (λ f. write_plan f (consecutive (length a + length one) rs)) first
    ∙ ap (λ n. write_plan ((a ++ one) ++ (y ++ c)) (consecutive n rs)) (sym m)
    ∙ others
    ∙ append_assoc a one (log_bytes rs ++ c)
    ∙ ap (λ z. a ++ z) (sym (append_assoc one (log_bytes rs) c))

pub log_bytes-append :
    (rs ss : List WalRecord) → log_bytes (rs ++ ss) ≡ log_bytes rs ++ log_bytes ss
unfolding log_bytes
log_bytes-append [] ss = refl
log_bytes-append (r ∷ rs) ss =
    rw (log_bytes-append rs ss)
      (sym (append_assoc (frame (payload r)) (log_bytes rs) (log_bytes ss)))

-- The header is written anew, and the records behind those that were there.
write_behind :
    (tail t : ℕ) (old new : List WalRecord) (x y : Bytes)
    → tail ≡ ring_header + length (log_bytes old)
    → length x ≡ length (log_bytes new)
    → write_plan
        (write_ring_header (head tail ++ (log_bytes old ++ (x ++ y))) t)
        (consecutive tail new)
      ≡ head t ++ (log_bytes (old ++ new) ++ y)
unfolding write_ring_header
write_behind tail t old new x y e k =
    let body = log_bytes old ++ (x ++ y) in
    let header : write_at (head tail ++ body) 0 (head t) ≡ (head t ++ log_bytes old) ++ (x ++ y) =
      write_at_middle [] (head tail) body (head t) 0 refl
        (omega (arith, length-head t, length-head tail))
      ∙ sym (append_assoc (head t) (log_bytes old) (x ++ y)) in
    let at : tail ≡ length (head t ++ log_bytes old) =
      omega (arith, e, length-append (head t) (log_bytes old), length-head t) in
    ap (λ f. write_plan f (consecutive tail new)) header
    ∙ ap (λ p. write_plan ((head t ++ log_bytes old) ++ (x ++ y)) (consecutive p new)) at
    ∙ write-consecutive new (head t ++ log_bytes old) x y k
    ∙ append_assoc (head t) (log_bytes old) (log_bytes new ++ y)
    ∙ ap (λ z. head t ++ z)
        (sym (append_assoc (log_bytes old) (log_bytes new) y)
          ∙ ap (λ z. z ++ y) (sym (log_bytes-append old new)))

-- The log after the pending records were placed behind the others.
commit-Holds :
    (r : RingWal) (old new : List WalRecord)
    → Holds r old
    → r.tail + length (log_bytes new) ≤ length r.file
    → IsU64 (r.tail + length (log_bytes new))
    → Holds (commit r (ok (consecutive r.tail new, r.tail + length (log_bytes new)))).1 (old ++ new)
commit-Holds r old new h fits small =
    let t = r.tail + length (log_bytes new) in
    let room : length (log_bytes new) ≤ length h.rest = omega (
      arith,
      h.tail,
      ap length h.file,
      length-append (head r.tail) (log_bytes old ++ h.rest),
      length-head r.tail,
      length-append (log_bytes old) h.rest,
    ) in
    let (x, y, e, k) = parts (length (log_bytes new)) h.rest room in
    record {
      rest = y;
      file =
          ap (λ f. write_plan (write_ring_header f t) (consecutive r.tail new))
            (h.file ∙ ap (λ z. head r.tail ++ (log_bytes old ++ z)) e)
          ∙ write_behind r.tail t old new x y h.tail k;
      tail = omega (
        arith,
        h.tail,
        ap length (log_bytes-append old new),
        length-append (log_bytes old) (log_bytes new),
      );
      u64 = small;
    }

abbrev pub Synced : RingWal → List WalRecord → Result (Unit {0}) × RingWal → Type 0
Synced r rs done = (done.0 ≡ ok tt) × Holds done.1 rs × (done.1.size ≡ r.size)

sync_pending-Holds :
    (r : RingWal) (old new : List WalRecord)
    → Holds r old
    → r.tail + length (log_bytes new) ≤ r.size
    → r.size ≤ length r.file
    → IsU64 r.size
    → Synced r (old ++ new) (sync_pending r (frames new))
sync_pending-Holds r old [] h fits full small = (refl, rw append-nil h, refl)
sync_pending-Holds r old (x ∷ new) h fits full small =
    rw (plan-consecutive (x ∷ new) r.size (ltb r.flushed_seq r.max_written_seq) r.tail fits)
      (refl, commit-Holds r old (x ∷ new) h (omega arith) (omega arith), refl)

pub sync-Holds :
    (r : RingWal) (old new : List WalRecord)
    → Holds r old
    → r.pending ≡ frames new
    → r.tail + length (log_bytes new) ≤ r.size
    → r.size ≤ length r.file
    → IsU64 r.size
    → Synced r (old ++ new) (sync r)
unfolding sync
sync-Holds r old new h e fits full small =
    subst (λ p. Synced r (old ++ new) (sync_pending r p)) (sym e)
      (sync_pending-Holds r old new h fits full small)

pub read_tail-head :
    (tail : ℕ) (body : Bytes) → IsU64 tail → read_tail (head tail ++ body) ≡ ok tail
unfolding read_tail bytes_eq to_le
read_tail-head tail body h =
    rw (read_at_middle [] (head tail) body 0 ring_header refl (sym (length-head tail)))
      (ap ok (from_le-to_le 8 tail h))

pub scan-Holds :
    (r : RingWal) (rs : List WalRecord)
    → Holds r rs
    → All IsWritable rs
    → scan_ring r.file r.tail ≡ ok (map read_back rs, places ring_header rs)
unfolding scan_ring
scan-Holds r rs h w =
    let f = head r.tail ++ (log_bytes rs ++ h.rest) in
    let scanned =
      scan_log rs (head r.tail) h.rest r.tail r.tail w (omega (arith, h.tail, length-head r.tail))
        (omega (arith, h.tail)) in
    ap (λ f. scan_loop r.tail f r.tail ring_header) h.file
    ∙ subst (λ n. scan_loop r.tail f r.tail n ≡ ok (map read_back rs, places n rs))
        (length-head r.tail) scanned
