-- ===== src/Txn/Locks/Deadlock/Sound.antt =====
-- A reported deadlock is a cycle of waiting transactions.
use shanshui_cunji.Prelude.{
  ℕ, zero, suc, ◌+◌, ◌<◌, ◌≡◌, refl, true, ◌&&◌, ◌||◌, ◌==◌, List, [], ◌∷◌, arith, ltb, Bool-cases,
  ◌⊎◌, inl, inr, contains, lookup, All, is_some,
}
use shanshui_cunji.Txn.Locks.{
  LockTable, Stack, blockers, push_holder, push_holders, search_cycle, detect_deadlock,
}
use shanshui_cunji.Txn.Locks.Deadlock.{WaitsFor, Reaches, one, then_one}

-- An entry at distance 0 is the start itself, any other is reached from it.
abbrev Found : LockTable → ℕ → ℕ × ℕ → Type 0
Found t txn (n, d) = ((d ≡ 0) × (n ≡ txn)) ⊎ ((0 < d) × Reaches t txn n)

module _ (t : LockTable) (txn cur depth : ℕ) (from : Found t txn (cur, depth)) where
  Found-next : (h : ℕ) → WaitsFor t cur h → Found t txn (h, depth + 1)
  Found-next h w = inr (omega arith, reach from)
    where
      reach : Found t txn (cur, depth) → Reaches t txn h
      reach (inl (_, e)) = one (rw e at w)
      reach (inr (_, r)) = then_one r w

  push_holder-Found :
      (h : ℕ) (stack : Stack)
      → contains (blockers t cur) h ≡ true
      → All (Found t txn) stack
      → All (Found t txn) (push_holder t txn cur depth h stack)
  unfolding push_holder
  push_holder-Found h stack held fs = elim (Bool-cases (h == cur)) [
    | inl same ↦ rw same fs
    | inr other ↦ elim (Bool-cases (is_some (lookup h t.waiting) || h == txn)) [
      | inl goes ↦
          rw (other, goes) (Found-next h (record { holds = held; other = λ e. ground arith }), fs)
      | inr stops ↦ rw (other, stops) fs
    ]
  ]

  push_holders-Found :
      (hs : List ℕ) (stack : Stack)
      → ((h : ℕ) → contains hs h ≡ true → contains (blockers t cur) h ≡ true)
      → All (Found t txn) stack
      → All (Found t txn) (push_holders t txn cur depth hs stack)
  unfolding push_holders
  push_holders-Found [] stack sub fs = fs
  push_holders-Found (h ∷ hs) stack sub fs =
      push_holders-Found hs (push_holder t txn cur depth h stack) (λ k e. sub k (ground arith))
        (push_holder-Found h stack (sub h (ground arith)) fs)

search_cycle-Reaches :
    (fuel : ℕ) (t : LockTable) (txn : ℕ) (stack : Stack) (visited : List ℕ)
    → All (Found t txn) stack
    → search_cycle fuel t txn stack visited ≡ true
    → Reaches t txn txn
unfolding search_cycle
search_cycle-Reaches zero t txn stack visited fs e = cc
search_cycle-Reaches (suc fuel) t txn [] visited fs e = cc
search_cycle-Reaches (suc fuel) t txn ((cur, depth) ∷ stack) visited (f, fs) e =
    elim (Bool-cases (ltb 0 depth && cur == txn)) [
      | inl hit ↦ reached f hit
      | inr miss ↦ elim (Bool-cases (contains visited cur)) [
        | inl old ↦ search_cycle-Reaches fuel t txn stack visited fs (rw (miss, old) at e)
        | inr new ↦
            search_cycle-Reaches fuel t txn (push_holders t txn cur depth (blockers t cur) stack)
              (cur ∷ visited)
              (push_holders-Found t txn cur depth f (blockers t cur) stack (λ h p. p) fs)
              (rw (miss, new) at e)
      ]
    ]
  where
    reached : Found t txn (cur, depth) → (ltb 0 depth && cur == txn) ≡ true → Reaches t txn txn
    reached (inl (z, _)) hit = absurd (ground arith)
    reached (inr (_, r)) hit = let same : cur ≡ txn = ground arith in rw same at r

-- A reported deadlock is a cycle of transactions that wait for one another, from the requester back
-- to it.
pub detect_deadlock-Reaches :
    (t : LockTable) (txn : ℕ) → detect_deadlock t txn ≡ true → Reaches t txn txn
unfolding detect_deadlock
detect_deadlock-Reaches t txn e =
    search_cycle-Reaches _ t txn ((txn, 0) ∷ []) [] (inl (refl, refl), tt) e
