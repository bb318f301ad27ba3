-- ===== src/Tests/LockRuns.antt =====
-- Lock tables with two transactions that lock the documents 10 and 20.
use shanshui_cunji.Prelude.{
  ◌≡◌, ◌≢◌, ◌↔◌, refl, true, not, ◌&&◌, ◌==◌, some, [], ◌∷◌, lookup, insert, contains, remove,
}
use shanshui_cunji.Errors.{ok, err, txn_deadlock, txn_conflict}
use shanshui_cunji.Txn.Locks.{
  LockState, LockTable, acquire, acquire_exclusive, add_holder, add_waiter, blockers, can_grant,
  can_upgrade, cancel_in, cancel_wait, detect_deadlock, drop_waiter, exclusive, held_by, holders_of,
  new_state, push_holder, push_holders, pushes_left, put_lock, record_held, refuse, release,
  release_docids, search_cycle, shared,
}
use shanshui_cunji.Txn.Locks.Grant.{WellFormed, acquire-WellFormed}
use shanshui_cunji.Txn.Locks.Exclusive.{acquire_exclusive_alone, acquire_blocked}
use shanshui_cunji.Txn.Locks.Waits.{acquire_keeps_waiting}
use shanshui_cunji.Txn.Locks.Release.{release_holders, release-WellFormed}
use shanshui_cunji.Txn.Locks.Deadlock.{Reaches}
use shanshui_cunji.Txn.Locks.Deadlock.Complete.{detect_deadlock_iff}

abbrev empty : LockTable
empty = record { locks = []; held = []; waiting = [] }

-- Transaction 1 holds document 10, transaction 2 holds document 20.
abbrev one_holds : LockTable
one_holds = (acquire empty 1 10 exclusive).1

abbrev both_hold : LockTable
both_hold = (acquire one_holds 2 20 exclusive).1

-- Transaction 1 waits for document 20, then transaction 2 asks for document 10.
abbrev one_waits : LockTable
one_waits = (acquire both_hold 1 20 exclusive).1

abbrev closed : LockTable
closed = record one_waits { waiting = insert 2 10 one_waits.waiting }

abbrev held_by_one : LockState
held_by_one = record { holders = 1 ∷ []; is_exclusive = true; waiters = [] }

empty-WellFormed : WellFormed empty
unfolding lookup held_by
empty-WellFormed = record { states = λ d. tt; agree = λ d u. refl }

one_holds-WellFormed : WellFormed one_holds
one_holds-WellFormed = acquire-WellFormed empty 1 10 exclusive empty-WellFormed

wait_refused : (acquire both_hold 1 20 exclusive).0 ≡ err txn_conflict
unfolding acquire lookup record_held put_lock insert can_grant new_state can_upgrade refuse
    detect_deadlock search_cycle pushes_left add_waiter push_holders blockers push_holder
wait_refused = refl

cycle_refused : (acquire one_waits 2 10 exclusive).0 ≡ err txn_deadlock
unfolding acquire lookup record_held put_lock insert can_grant new_state can_upgrade refuse
    detect_deadlock search_cycle pushes_left add_waiter push_holders blockers push_holder
cycle_refused = refl

detect_deadlock_iff_example : (detect_deadlock closed 2 ≡ true) ↔ Reaches closed 2 2
detect_deadlock_iff_example = detect_deadlock_iff closed 2

acquire-WellFormed_example : WellFormed both_hold
acquire-WellFormed_example = acquire-WellFormed one_holds 2 20 exclusive one_holds-WellFormed

acquire_exclusive_alone_example :
    (s : LockState) × (lookup 20 (acquire_exclusive one_holds 2 20).1.locks ≡ some s)
    × (s.holders ≡ 2 ∷ [])
    × (s.is_exclusive ≡ true)
unfolding acquire_exclusive acquire lookup record_held put_lock insert
acquire_exclusive_alone_example = acquire_exclusive_alone one_holds 2 20 one_holds-WellFormed refl

acquire_blocked_example :
    ((acquire one_holds 2 10 shared).0 ≢ ok tt)
    × (holders_of (lookup 10 (acquire one_holds 2 10 shared).1.locks) ≡ 1 ∷ [])
unfolding acquire lookup record_held put_lock insert new_state
acquire_blocked_example = acquire_blocked one_holds 2 10 1 shared held_by_one refl refl refl

release_holders_example :
    contains (holders_of (lookup 10 (release one_holds 1).locks)) 1
    ≡ (not (1 == 1) && contains (holders_of (lookup 10 one_holds.locks)) 1)
release_holders_example = release_holders one_holds 1 10 1 one_holds-WellFormed

release-WellFormed_example : WellFormed (release one_holds 1)
release-WellFormed_example = release-WellFormed one_holds 1 one_holds-WellFormed

-- Transaction 1 was refused document 20, asks again after transaction 2 has gone, and gets it.
abbrev retried : LockTable
retried = (acquire (release one_waits 2) 1 20 shared).1

-- Transaction 3 shares document 20 then.
abbrev shared_by_three : LockTable
shared_by_three = (acquire retried 3 20 shared).1

retry_granted : (acquire (release one_waits 2) 1 20 shared).0 ≡ ok tt
unfolding acquire lookup release release_docids held_by record_held put_lock insert remove can_grant
    new_state can_upgrade refuse detect_deadlock search_cycle pushes_left add_waiter push_holders
    blockers add_holder cancel_in cancel_wait drop_waiter push_holder
retry_granted = refl

-- Nobody waits, and the first request that has to wait is refused as a deadlock.
wait_left_behind : (acquire shared_by_three 3 10 exclusive).0 ≡ err txn_deadlock
unfolding acquire lookup release release_docids held_by record_held put_lock insert remove can_grant
    new_state can_upgrade refuse detect_deadlock search_cycle pushes_left add_waiter push_holders
    blockers add_holder cancel_in cancel_wait drop_waiter push_holder
wait_left_behind = refl

acquire_keeps_waiting_example :
    (acquire (release one_waits 2) 1 20 shared).1.waiting ≡ (release one_waits 2).waiting
unfolding acquire lookup release release_docids held_by record_held put_lock insert remove can_grant
    new_state can_upgrade refuse detect_deadlock search_cycle pushes_left add_waiter push_holders
    blockers add_holder cancel_in cancel_wait drop_waiter push_holder
acquire_keeps_waiting_example = acquire_keeps_waiting (release one_waits 2) 1 20 shared refl
