-- ===== src/Wal/Ring/Safety.antt =====
-- What `sync` of the ring log leaves alone, and that it stays within its file.
use shanshui_cunji.Prelude.{
  ℕ, max, Option, ◌+◌, ◌%◌, ◌^◌, ◌-◌, ◌≤◌, ◌<◌, ◌≡◌, refl, ◌∙◌, true, List, [], ◌∷◌, ◌++◌, arith,
  ltb, length, get_elem?, replicate, All, Bool-cases, inl, inr, ◌⊎◌,
}
use shanshui_cunji.Errors.{Result, ok, err, panic, wal_full}
use shanshui_cunji.Bytes.{Bytes}
use shanshui_cunji.Wal.Ring.{ring_header, write_at, write_plan}
use shanshui_cunji.Wal.{payload_of, frame}
use shanshui_cunji.Wal.Ring.Plan.{IsPlace, Planned, plan-IsPlace, plan_unflushed}
use shanshui_cunji.Wal.Ring.Write.{length-write_at, get_elem?-write_at}
use shanshui_cunji.Wal.Ring.{
  ring_magic, RingWal, write_ring_header, sync_pending, sync, commit, append_at, set_flushed_seq,
}
use shanshui_cunji.Bytes.{to_le}
use shanshui_cunji.Bytes.Laws.{length-to_le}

-- The tail is behind the header and within the file, which has its full size, and `pending_bytes`
-- counts the pending records.
unfoldable pub total : List Bytes → ℕ
total [] = 0
total (rec ∷ recs) = length rec + total recs

pub record IsWellFormed (r : RingWal) : Type 0 where
  pub tail_low : ring_header ≤ r.tail
  pub tail_high : r.tail ≤ r.size
  pub full : r.size ≤ length r.file
  pub counted : r.pending_bytes ≡ total r.pending
  pub room : total r.pending ≤ r.size - ring_header

length-header : (tail : ℕ) → length (ring_magic ++ (replicate 8 0 ++ to_le 8 tail)) ≡ 20
length-header tail = omega (arith, length-to_le 8 tail)

length-write_ring_header :
    (file : Bytes) (tail : ℕ)
    → ring_header ≤ length file
    → length (write_ring_header file tail) ≡ length file
unfolding write_ring_header
length-write_ring_header file tail h = length-write_at file _ 0 (omega (arith, length-header tail))

length-write_plan :
    (placed : List (ℕ × Bytes)) (file : Bytes) (size low : ℕ)
    → size ≤ length file
    → All (λ e. (low ≤ e.0) × (e.0 + length e.1 ≤ size)) placed
    → length (write_plan file placed) ≡ length file
unfolding write_plan
length-write_plan [] file size low h p = refl
length-write_plan ((off, rec) ∷ placed) file size low h ((l, k), ps) =
    let e = length-write_at file rec off (omega arith) in
    length-write_plan placed (write_at file off rec) size low (omega (arith, e)) ps ∙ e

write_plan_keeps :
    (placed : List (ℕ × Bytes)) (file : Bytes) (size low i : ℕ)
    → size ≤ length file
    → All (λ e. (low ≤ e.0) × (e.0 + length e.1 ≤ size)) placed
    → i < low
    → get_elem? (write_plan file placed) i ≡ get_elem? file i
unfolding write_plan
write_plan_keeps [] file size low i h p k = refl
write_plan_keeps ((off, rec) ∷ placed) file size low i h ((l, m), ps) k =
    let e = length-write_at file rec off (omega arith) in
    write_plan_keeps placed (write_at file off rec) size low i (omega (arith, e)) ps k
    ∙ get_elem?-write_at file rec off (omega arith) i (inl (omega arith))

commit-IsWellFormed :
    (r : RingWal) (result : Result (List (ℕ × Bytes) × ℕ))
    → IsWellFormed r
    → Planned (IsPlace r.size) (λ tail. (ring_header ≤ tail) × (tail ≤ r.size)) result
    → IsWellFormed (commit r result).1
unfolding total
commit-IsWellFormed r (err e) w h = w
commit-IsWellFormed r panic w h = w
commit-IsWellFormed r (ok (placed, tail)) w (p, (low, high)) =
    let e = length-write_ring_header r.file tail (omega (arith, w.tail_low, w.tail_high, w.full)) in
    record {
      tail_low = low;
      tail_high = high;
      full = omega (
        arith,
        w.full,
        e,
        length-write_plan placed (write_ring_header r.file tail) r.size ring_header
            (omega (arith, e, w.full)) p,
      );
      counted = refl;
      room = omega arith;
    }

sync_pending-IsWellFormed :
    (r : RingWal) (pending : List Bytes) → IsWellFormed r → IsWellFormed (sync_pending r pending).1
sync_pending-IsWellFormed r [] w = w
sync_pending-IsWellFormed r (rec ∷ recs) w = commit-IsWellFormed r _ w (
    plan-IsPlace r.size (ltb r.flushed_seq r.max_written_seq) (rec ∷ recs) r.tail w.tail_low
      w.tail_high)

sync-IsWellFormed : (r : RingWal) → IsWellFormed r → IsWellFormed (sync r).1
unfolding sync
sync-IsWellFormed r w = sync_pending-IsWellFormed r r.pending w

total-snoc :
    (recs : List Bytes) (rec : Bytes) → total (recs ++ (rec ∷ [])) ≡ total recs + length rec
unfolding total
total-snoc [] rec = omega arith
total-snoc (x ∷ recs) rec = omega (arith, total-snoc recs rec)

append_at-IsWellFormed :
    (r : RingWal) (op : ℕ) (key : Bytes) (value : Option Bytes) (seq : ℕ)
    → IsWellFormed r
    → IsWellFormed (append_at r op key value seq).1
unfolding append_at
append_at-IsWellFormed r op key value seq w =
    let rec = frame (payload_of op key value seq) in
    elim (Bool-cases (ltb (r.size - ring_header) (r.pending_bytes + length rec))) [
      | inl e ↦ rw e w'
      | inr e ↦ rw e (record {
        tail_low = w.tail_low;
        tail_high = w.tail_high;
        full = w.full;
        counted = omega (arith, w.counted, total-snoc r.pending rec);
        room = ground (arith, w.counted, total-snoc r.pending rec);
      })
    ]
  where
    w' : IsWellFormed (record r { next_seq = max r.next_seq ((seq + 1) % 2 ^ 64) })
    w' = record {
      tail_low = w.tail_low;
      tail_high = w.tail_high;
      full = w.full;
      counted = w.counted;
      room = w.room;
    }

-- The operations on an open ring log keep this: the tail lies behind the header and within the size,
-- the file is at least of that size, and the pending records are counted by `pending_bytes` and fit
-- behind the header.
pub ring-IsWellFormed :
    (r : RingWal)
    → IsWellFormed r
    → ((op : ℕ) (key : Bytes) (value : Option Bytes) (seq : ℕ)
        → IsWellFormed (append_at r op key value seq).1)
      × ((seq : ℕ) → IsWellFormed (set_flushed_seq r seq))
      × IsWellFormed (sync r).1
unfolding set_flushed_seq
ring-IsWellFormed r w = (
  λ op key value seq. append_at-IsWellFormed r op key value seq w,
  λ seq. record {
    tail_low = w.tail_low;
    tail_high = w.tail_high;
    full = w.full;
    counted = w.counted;
    room = w.room;
  },
  sync-IsWellFormed r w,
)

-- What `sync` may do to a log with records that are not flushed.
abbrev pub Keeps : RingWal → Result (Unit {0}) × RingWal → Type 0
Keeps r done =
    ((done.0 ≡ ok tt)
      × (r.tail ≤ done.1.tail)
      × ((i : ℕ) → ring_header ≤ i → i < r.tail → get_elem? done.1.file i ≡ get_elem? r.file i))
    ⊎ (done ≡ (err wal_full, r))

commit-Keeps :
    (r : RingWal) (result : Result (List (ℕ × Bytes) × ℕ))
    → IsWellFormed r
    → Planned (λ e. (r.tail ≤ e.0) × (e.0 + length e.1 ≤ r.size)) (λ tail. r.tail ≤ tail) result
    → Keeps r (commit r result)
unfolding write_ring_header
commit-Keeps r (err e) w h = inr (rw h refl)
commit-Keeps r panic w h = absurd h
commit-Keeps r (ok (placed, tail)) w (p, low) =
    let e = length-write_ring_header r.file tail (omega (arith, w.tail_low, w.tail_high, w.full)) in
    inl (
      refl,
      low,
      λ i li hi.
          write_plan_keeps placed (write_ring_header r.file tail) r.size r.tail i
            (omega (arith, e, w.full)) p hi
          ∙ get_elem?-write_at r.file _ 0
              (omega (arith, length-header tail, w.tail_low, w.tail_high, w.full)) i
              (inr (omega (arith, length-header tail))),
    )

-- While a record that is written is not flushed, `sync` of a well-formed ring log overwrites none:
-- either it succeeds, the tail does not move back, and every byte from the header to the old tail is
-- the old one, or it returns `wal_full` and changes nothing.
pub sync-Keeps :
    (r : RingWal) → IsWellFormed r → r.flushed_seq < r.max_written_seq → Keeps r (sync r)
unfolding sync
sync-Keeps r w h = go r.pending
  where
    unflushed : ltb r.flushed_seq r.max_written_seq ≡ true
    unflushed = ground arith

    go : (pending : List Bytes) → Keeps r (sync_pending r pending)
    go [] = inl (refl, omega arith, λ i li hi. refl)
    go (rec ∷ recs) = rw unflushed (
        commit-Keeps r _ w
          (plan_unflushed r.size (rec ∷ recs) r.tail r.tail (omega arith) w.tail_high))
