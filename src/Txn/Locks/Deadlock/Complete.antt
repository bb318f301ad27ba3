-- ===== src/Txn/Locks/Deadlock/Complete.antt =====
-- A cycle of waiting transactions is always reported.
use shanshui_cunji.Prelude.{
  ℕ, zero, suc, ◌<◌, ◌≡◌, ◌≢◌, ◌↔◌, refl, Bool, true, false, ◌&&◌, ◌||◌, ◌==◌, List, [], ◌∷◌, arith,
  ltb, Bool-cases, inl, inr, any, contains, lookup, Option-cases, is_some,
}
use shanshui_cunji.Txn.Locks.{
  LockTable, Stack, blockers, push_holder, push_holders, search_cycle, detect_deadlock,
}
use shanshui_cunji.Txn.Locks.Deadlock.{WaitsFor, Reaches, one, step}
use shanshui_cunji.Txn.Locks.Deadlock.Sound.{detect_deadlock-Reaches}
use shanshui_cunji.Txn.Locks.Deadlock.Fuel.{work, work-expand}

abbrev on_stack : Stack → ℕ → Bool
on_stack stack n = any (λ (e : ℕ × ℕ). e.0 == n) stack

-- The start stands on the stack at some distance: the search will report it.
abbrev will_report : ℕ → Stack → Bool
will_report txn stack = any (λ (e : ℕ × ℕ). ltb 0 e.1 && e.0 == txn) stack

module _ (t : LockTable) (txn cur depth : ℕ) where
  push_holder_keeps :
      (h : ℕ) (stack : Stack) (n : ℕ)
      → (on_stack stack n ≡ true → on_stack (push_holder t txn cur depth h stack) n ≡ true)
        × (will_report txn stack ≡ true
            → will_report txn (push_holder t txn cur depth h stack) ≡ true)
  unfolding push_holder
  push_holder_keeps h stack n = (λ e. ground arith, λ e. ground arith)

  push_holders_keeps :
      (hs : List ℕ) (stack : Stack) (n : ℕ)
      → (on_stack stack n ≡ true → on_stack (push_holders t txn cur depth hs stack) n ≡ true)
        × (will_report txn stack ≡ true
            → will_report txn (push_holders t txn cur depth hs stack) ≡ true)
  unfolding push_holders
  push_holders_keeps [] stack n = (λ e. e, λ e. e)
  push_holders_keeps (h ∷ hs) stack n =
      let (k, r) = push_holder_keeps h stack n in
      let (k', r') = push_holders_keeps hs (push_holder t txn cur depth h stack) n in
      (λ e. k' (k e), λ e. r' (r e))

  -- A holder that waits itself, or that is the start, is pushed.
  push_holder_takes :
      (n : ℕ) (stack : Stack)
      → n ≢ cur
      → (is_some (lookup n t.waiting) ≡ true
          → on_stack (push_holder t txn cur depth n stack) n ≡ true)
        × (n ≡ txn → will_report txn (push_holder t txn cur depth n stack) ≡ true)
  unfolding push_holder
  push_holder_takes n stack ne = (λ e. ground arith, λ e. ground arith)

  push_holders_take :
      (hs : List ℕ) (stack : Stack) (n : ℕ)
      → n ≢ cur
      → contains hs n ≡ true
      → (is_some (lookup n t.waiting) ≡ true
          → on_stack (push_holders t txn cur depth hs stack) n ≡ true)
        × (n ≡ txn → will_report txn (push_holders t txn cur depth hs stack) ≡ true)
  unfolding push_holders
  push_holders_take [] stack n ne e = absurd (ground arith)
  push_holders_take (h ∷ hs) stack n ne e = elim (Bool-cases (h == n)) [
    | inl same ↦
        let p : h ≡ n = ground arith in
        let (takes, reports) = push_holder_takes n stack ne in
        let (k, r) = push_holders_keeps hs (push_holder t txn cur depth n stack) n in
        rw p (λ w. k (takes w), λ q. r (reports q))
    | inr other ↦ push_holders_take hs (push_holder t txn cur depth h stack) n ne (ground arith)
  ]

-- What the visited transactions wait for is visited, on the stack, or waits for nothing; and if one
-- of them waits for the start, the start is on the stack to be reported.
record IsCovered (t : LockTable) (txn : ℕ) (stack : Stack) (visited : List ℕ) : Type 0 where
  next :
      (a b : ℕ)
      → contains visited a ≡ true
      → WaitsFor t a b
      → is_some (lookup b t.waiting) ≡ true
      → (contains visited b || on_stack stack b) ≡ true
  back : (a : ℕ) → contains visited a ≡ true → WaitsFor t a txn → will_report txn stack ≡ true
  start : (contains visited txn || on_stack stack txn) ≡ true

module _ (t : LockTable) (txn cur depth : ℕ) (stack : Stack) (visited : List ℕ)
    (c : IsCovered t txn ((cur, depth) ∷ stack) visited)
    (miss : (ltb 0 depth && cur == txn) ≡ false) where
  skip-IsCovered : contains visited cur ≡ true → IsCovered t txn stack visited
  skip-IsCovered old = record {
    next = λ a b v w s. ground (arith, c.next a b v w s);
    back = λ a v w. ground (arith, c.back a v w);
    start = ground (arith, c.start);
  }

  expand-IsCovered :
      IsCovered t txn (push_holders t txn cur depth (blockers t cur) stack) (cur ∷ visited)
  expand-IsCovered = record {
    next = λ a b v w s. elim (Bool-cases (cur == a)) [
      | inl same ↦
          let p : a ≡ cur = ground arith in
          let here : WaitsFor t cur b = rw p at w in
          ground (
            arith,
            (push_holders_take t txn cur depth (blockers t cur) stack b here.other here.holds).0 s,
          )
      | inr other ↦
          let before = c.next a b (ground arith) w s in
          ground (arith, before, (push_holders_keeps t txn cur depth (blockers t cur) stack b).0)
    ];
    back = λ a v w. elim (Bool-cases (cur == a)) [
      | inl same ↦
          let p : a ≡ cur = ground arith in
          let here : WaitsFor t cur txn = rw p at w in
          (push_holders_take t txn cur depth (blockers t cur) stack txn here.other here.holds).1
            refl
      | inr other ↦
          let before = c.back a (ground arith) w in
          (push_holders_keeps t txn cur depth (blockers t cur) stack txn).1 (ground arith)
    ];
    start =
        ground (arith, c.start, (push_holders_keeps t txn cur depth (blockers t cur) stack txn).0);
  }

WaitsFor-waiting : {t : LockTable} {a b : ℕ} → WaitsFor t a b → is_some (lookup a t.waiting) ≡ true
unfolding blockers
WaitsFor-waiting {t} {a} w = elim (Option-cases (lookup a t.waiting)) [
  | inl e ↦ absurd (cc (rw e at w.holds))
  | inr (d, e) ↦ rw e
]

Reaches-waiting : {t : LockTable} {a b : ℕ} → Reaches t a b → is_some (lookup a t.waiting) ≡ true
Reaches-waiting (one w) = WaitsFor-waiting w
Reaches-waiting (step w r) = WaitsFor-waiting w

-- With nothing left to look at, no visited transaction waits its way back to the start.
no_way_back :
    (t : LockTable) (txn : ℕ) (visited : List ℕ)
    → IsCovered t txn [] visited
    → {a b : ℕ} → Reaches t a b
    → b ≡ txn
    → contains visited a ≡ true
    → ⊥
no_way_back t txn visited c {a} (one w) e v = cc (c.back a v (rw e at w))
no_way_back t txn visited c {a} (step {b = m} w r) e v =
    no_way_back t txn visited c r e (ground (arith, c.next a m v w (Reaches-waiting r)))

search_cycle_complete :
    (fuel : ℕ) (t : LockTable) (txn : ℕ) (stack : Stack) (visited : List ℕ)
    → work t stack visited < fuel
    → IsCovered t txn stack visited
    → Reaches t txn txn
    → search_cycle fuel t txn stack visited ≡ true
unfolding search_cycle
search_cycle_complete zero t txn stack visited h c r = absurd (omega arith)
search_cycle_complete (suc fuel) t txn [] visited h c r =
    absurd (no_way_back t txn visited c r refl (ground (arith, c.start)))
search_cycle_complete (suc fuel) t txn ((cur, depth) ∷ stack) visited h c r =
    elim (Bool-cases (ltb 0 depth && cur == txn)) [
      | inl hit ↦ rw hit
      | inr miss ↦ elim (Bool-cases (contains visited cur)) [
        | inl old ↦
            rw (miss, old)
              (search_cycle_complete fuel t txn stack visited (omega arith)
                (skip-IsCovered t txn cur depth stack visited c miss old) r)
        | inr new ↦
            rw (miss, new)
              (search_cycle_complete fuel t txn
                (push_holders t txn cur depth (blockers t cur) stack) (cur ∷ visited)
                (omega (arith, work-expand t txn cur depth stack visited new))
                (expand-IsCovered t txn cur depth stack visited c miss) r)
      ]
    ]

-- A cycle of transactions that wait for one another, from the requester back to it, is always
-- reported.
pub detect_deadlock_complete :
    (t : LockTable) (txn : ℕ) → Reaches t txn txn → detect_deadlock t txn ≡ true
unfolding detect_deadlock
detect_deadlock_complete t txn r =
    search_cycle_complete _ t txn ((txn, 0) ∷ []) [] (omega arith)
      (record { next = λ a b v w s. cc; back = λ a v w. cc; start = ground arith }) r

-- The search reports a deadlock exactly when the requester stands on a cycle of transactions that
-- wait for one another.
pub detect_deadlock_iff :
    (t : LockTable) (txn : ℕ) → (detect_deadlock t txn ≡ true) ↔ Reaches t txn txn
detect_deadlock_iff t txn = (detect_deadlock-Reaches t txn, detect_deadlock_complete t txn)
