-- ===== src/Txn/Locks/Deadlock/Fuel.antt =====
-- The fuel of `detect_deadlock` is enough: every round takes one entry off the stack or uses up the
-- pushes of a transaction that was not visited before.
use shanshui_cunji.Prelude.{
  ℕ, ◌+◌, ◌≤◌, ◌≡◌, false, List, [], ◌∷◌, arith, length, contains, Map, lookup,
}
use shanshui_cunji.Txn.Locks.{
  LockTable, Stack, waited_holders, blockers, push_holder, push_holders, pushes_left,
}

length-push_holders :
    (t : LockTable) (txn cur depth : ℕ) (hs : List ℕ) (stack : Stack)
    → length (push_holders t txn cur depth hs stack) ≤ length hs + length stack
unfolding push_holders push_holder
length-push_holders t txn cur depth [] stack = omega arith
length-push_holders t txn cur depth (h ∷ hs) stack =
    ground (arith, length-push_holders t txn cur depth hs (push_holder t txn cur depth h stack))

pushes_left-visit :
    (t : LockTable) (visited : List ℕ) (cur : ℕ) (m : Map ℕ)
    → pushes_left t (cur ∷ visited) m ≤ pushes_left t visited m
unfolding pushes_left
pushes_left-visit t visited cur [] = omega arith
pushes_left-visit t visited cur ((w, d) ∷ m) = ground (arith, pushes_left-visit t visited cur m)

-- A first visit uses up the pushes of the one visited.
pushes_left-first_visit :
    (t : LockTable) (visited : List ℕ) (cur : ℕ) (m : Map ℕ)
    → contains visited cur ≡ false
    → pushes_left t (cur ∷ visited) m + length (waited_holders t (lookup cur m))
      ≤ pushes_left t visited m
unfolding pushes_left lookup
pushes_left-first_visit t visited cur [] new = omega arith
pushes_left-first_visit t visited cur ((w, d) ∷ m) new =
    ground (arith, pushes_left-first_visit t visited cur m new, pushes_left-visit t visited cur m)

-- What the fuel has to exceed.
abbrev pub work : LockTable → Stack → List ℕ → ℕ
work t stack visited = length stack + pushes_left t visited t.waiting

pub work-expand :
    (t : LockTable) (txn cur depth : ℕ) (stack : Stack) (visited : List ℕ)
    → contains visited cur ≡ false
    → work t (push_holders t txn cur depth (blockers t cur) stack) (cur ∷ visited)
      ≤ work t stack visited
unfolding blockers
work-expand t txn cur depth stack visited new = omega (
  arith,
  length-push_holders t txn cur depth (blockers t cur) stack,
  pushes_left-first_visit t visited cur t.waiting new,
)
