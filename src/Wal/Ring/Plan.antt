-- ===== src/Wal/Ring/Plan.antt =====
-- Where `sync` of the ring log puts the pending records.
use shanshui_cunji.Prelude.{
  ℕ, ◌+◌, ◌≤◌, ◌≡◌, refl, Bool, true, false, List, [], ◌∷◌, arith, ltb, length, All, Bool-cases,
  inl, inr, ◌⊎◌,
}
use shanshui_cunji.Errors.{Result, ok, err, panic, wal_full, ◌>>=◌}
use shanshui_cunji.Bytes.{Bytes}
use shanshui_cunji.Wal.Ring.{ring_header, place, plan}

-- A place for a record within the file, behind the header.
abbrev pub IsPlace : ℕ → ℕ × Bytes → Type 0
IsPlace size e = (ring_header ≤ e.0) × (e.0 + length e.1 ≤ size)

-- A plan has places that are so, and a tail that is so.
abbrev pub Planned : (ℕ × Bytes → Type 0) → (ℕ → Type 0) → Result (List (ℕ × Bytes) × ℕ) → Type 0
Planned P Q (ok (placed, tail)) = All P placed × Q tail
Planned P Q (err e) = e ≡ wal_full
Planned P Q panic = ⊥

place_cases :
    (size : ℕ) (unflushed : Bool) (pos len : ℕ)
    → (place size unflushed pos len ≡ err wal_full)
      ⊎ ((place size unflushed pos len ≡ ok pos) × (pos + len ≤ size))
      ⊎ ((place size unflushed pos len ≡ ok ring_header)
          × (ring_header + len ≤ size)
          × (unflushed ≡ false))
unfolding place
place_cases size unflushed pos len = elim (Bool-cases (ltb size (pos + len))) [
  | inl w ↦ elim (Bool-cases (ltb size (ring_header + len))) [
    | inl x ↦ inl (ground arith)
    | inr x ↦ elim (Bool-cases unflushed) [
      | inl u ↦ inl (ground arith)
      | inr u ↦ inr (inr (ground arith, ground arith, u))
    ]
  ]
  | inr w ↦ inr (inl (ground arith, ground arith))
]

-- One more place in front.
Planned-next :
    (P : ℕ × Bytes → Type 0) (Q : ℕ → Type 0) (e : ℕ × Bytes) (r : Result (List (ℕ × Bytes) × ℕ))
    → P e
    → Planned P Q r
    → Planned P Q (r >>= λ (later, tail). ok (e ∷ later, tail))
Planned-next P Q e (ok (placed, tail)) p (ps, q) = ((p, ps), q)
Planned-next P Q e (err x) p h = h
Planned-next P Q e panic p h = h

pub plan-IsPlace :
    (size : ℕ) (unflushed : Bool) (recs : List Bytes) (pos : ℕ)
    → ring_header ≤ pos
    → pos ≤ size
    → Planned
        (IsPlace size)
        (λ tail. (ring_header ≤ tail) × (tail ≤ size))
        (plan size unflushed pos recs)
unfolding plan
plan-IsPlace size unflushed [] pos low high = (tt, (low, high))
plan-IsPlace size unflushed (rec ∷ recs) pos low high =
    elim (place_cases size unflushed pos (length rec)) [
      | inl e ↦ rw e refl
      | inr (inl (e, h)) ↦ rw e (
          Planned-next _ _ (pos, rec) _ (low, h)
            (plan-IsPlace size unflushed recs (pos + length rec) (omega arith) h))
      | inr (inr (e, h, _)) ↦ rw e (
          Planned-next _ _ (ring_header, rec) _ (omega arith, h)
            (plan-IsPlace size unflushed recs (ring_header + length rec) (omega arith) h))
    ]

-- With records that are not flushed there is no wrap: nothing is placed before the tail.
pub plan_unflushed :
    (size : ℕ) (recs : List Bytes) (pos low : ℕ)
    → low ≤ pos
    → pos ≤ size
    → Planned
        (λ e. (low ≤ e.0) × (e.0 + length e.1 ≤ size))
        (λ tail. low ≤ tail)
        (plan size true pos recs)
unfolding plan
plan_unflushed size [] pos low h hs = (tt, h)
plan_unflushed size (rec ∷ recs) pos low h hs = elim (place_cases size true pos (length rec)) [
  | inl e ↦ rw e refl
  | inr (inl (e, k)) ↦ rw e (
      Planned-next _ _ (pos, rec) _ (h, k)
        (plan_unflushed size recs (pos + length rec) low (omega arith) k))
  | inr (inr (e, k, f)) ↦ absurd (ground arith)
]
