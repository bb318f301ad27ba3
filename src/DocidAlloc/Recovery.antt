-- ===== src/DocidAlloc/Recovery.antt =====
-- Restoring an allocator from its persisted counters, and growing it.
use shanshui_cunji.Prelude.{
  length-replicate, ℕ, zero, suc, ◌+◌, ◌-◌, ◌^◌, ◌≤◌, ◌<◌, ◌≡◌, refl, ap, List, [], ◌∷◌, ◌++◌,
  arith, append_assoc, append-nil, length, length-append, length-set, set, replicate, map, All, ltb,
  Bool-cases, inl, inr, max, get_elem?, get_elem?-append,
}
use shanshui_cunji.Errors.{ok, err, unsupported}
use shanshui_cunji.DocidAlloc.{
  ShardLocalAllocator, DocIdAllocator, local_capacity, new_shard, with_start, watermark, new,
  put_shard, restore_from, from_watermarks, watermarks, resize_loop, resize,
}

-- A write just behind the first part of a list.
set-append {ℓ} :
    {A : Type ℓ} (done : List A) (x y : A) (rest : List A)
    → set (done ++ (x ∷ rest)) (length done) y ≡ done ++ (y ∷ rest)
set-append [] x y rest = refl
set-append (d ∷ done) x y rest = ap (λ l. d ∷ l) (set-append done x y rest)

-- The loop writes the counters one after the other over the fresh shards.
restore_from-replicate :
    (todo done : List ShardLocalAllocator)
    → All (λ s. s.next < local_capacity) todo
    → restore_from
        (length done)
        (map watermark todo)
        (record { shards = done ++ replicate (length todo) new_shard })
      ≡ ok (record { shards = done ++ todo })
unfolding restore_from put_shard with_start watermark
restore_from-replicate [] done h = refl
restore_from-replicate (s ∷ todo) done h = ground (
  arith,
  length-append done (replicate (suc (length todo)) new_shard),
  set-append done new_shard s (replicate (length todo) new_shard),
  append_assoc done (s ∷ []) todo,
  append_assoc done (s ∷ []) (replicate (length todo) new_shard),
  length-append done (s ∷ []),
  restore_from-replicate todo (done ++ (s ∷ [])) h.1,
)

length-map {ℓ κ} :
    {A : Type ℓ} {B : Type κ} (f : A → B) (xs : List A) → length (map f xs) ≡ length xs
length-map f [] = refl
length-map f (x ∷ xs) = ap suc (length-map f xs)

-- An allocator of 1 to 65535 shards, none of them full, is restored from its watermarks unchanged.
pub from_watermarks-watermarks :
    (a : DocIdAllocator)
    → 0 < length a.shards
    → length a.shards < 2 ^ 16
    → All (λ s. s.next < local_capacity) a.shards
    → from_watermarks (watermarks a) ≡ ok a
unfolding from_watermarks watermarks new
from_watermarks-watermarks a lo hi h =
    ground (arith, length-map watermark a.shards, restore_from-replicate a.shards [] h)

restore_from_full :
    (before after : List ℕ) (w i : ℕ) (a : DocIdAllocator)
    → i + length before < length a.shards
    → All (λ v. v < local_capacity) before
    → local_capacity ≤ w
    → restore_from i (before ++ (w ∷ after)) a ≡ err unsupported
unfolding restore_from put_shard with_start
restore_from_full [] after w i a hi hb hw = ground arith
restore_from_full (v ∷ before) after w i a hi hb hw =
    let s : ShardLocalAllocator = record { next = v } in
    ground (
      arith,
      length-set a.shards i s,
      restore_from_full before after w (i + 1) (record { shards = set a.shards i s }),
    )

-- One watermark at the capacity of a shard or above, as a full shard reports it, makes the restore
-- of all shards fail, 65535 at most, where the watermarks before it are below the capacity.
pub from_watermarks_full :
    (before after : List ℕ) (w : ℕ)
    → length (before ++ (w ∷ after)) < 2 ^ 16
    → All (λ v. v < local_capacity) before
    → local_capacity ≤ w
    → from_watermarks (before ++ (w ∷ after)) ≡ err unsupported
unfolding from_watermarks new
from_watermarks_full before after w h hb hw =
    let n = length (before ++ (w ∷ after)) in
    let fresh : DocIdAllocator = record { shards = replicate n new_shard } in
    ground (
      arith,
      length-append before (w ∷ after),
      length-replicate n new_shard,
      restore_from_full before after w 0 fresh,
    )

resize_loop-replicate :
    (fuel n : ℕ) (shards : List ShardLocalAllocator)
    → length shards < 2 ^ 16
    → n < 2 ^ 16
    → n ≤ fuel + length shards
    → resize_loop fuel shards n ≡ shards ++ replicate (n - length shards) new_shard
unfolding resize_loop
resize_loop-replicate zero n shards hs hn hf =
    let none_left : n - length shards ≡ 0 = omega arith in rw (none_left, append-nil)
resize_loop-replicate (suc fuel) n shards hs hn hf = elim (Bool-cases (ltb (length shards) n)) [
  | inl more ↦
      let one_more : n - length shards ≡ suc (n - suc (length shards)) = ground arith in
      ground (
        arith,
        one_more,
        length-append shards (new_shard ∷ []),
        append_assoc shards (new_shard ∷ []) (replicate (n - suc (length shards)) new_shard),
        resize_loop-replicate fuel n (shards ++ (new_shard ∷ [])),
      )
  | inr done ↦
      let none_left : n - length shards ≡ 0 = ground arith in
      ground (arith, none_left, append-nil shards)
]

-- Growing keeps the counter of every shard there was at its place, and makes as many shards as asked
-- for where there are fewer, for counts below 2^16.
pub resize_lem :
    (a : DocIdAllocator) (n i : ℕ)
    → length a.shards < 2 ^ 16
    → n < 2 ^ 16
    → i < length a.shards
    → (length (resize a n).shards ≡ max (length a.shards) n)
      × (get_elem? (resize a n).shards i ≡ get_elem? a.shards i)
unfolding resize
resize_lem a n i hs hn hi =
    let fresh = replicate (n - length a.shards) new_shard in
    rw (resize_loop-replicate n n a.shards hs hn (omega arith)) (
      omega (arith, length-append a.shards fresh, length-replicate (n - length a.shards) new_shard),
      get_elem?-append a.shards fresh i hi,
    )
