-- ===== src/Txn/Locks/Exclusive.antt =====
-- What a granted exclusive lock promises, and how it blocks other requests.
use shanshui_cunji.Prelude.{
  ℕ, ◌≡◌, ◌≢◌, refl, ◌∙◌, true, some, [], ◌∷◌, arith, ==_refl, lookup, lookup-insert, Option-cases,
  Bool-cases, inl, inr,
}
use shanshui_cunji.Errors.{ok}
use shanshui_cunji.Txn.Locks.{
  LockMode, shared, exclusive, LockState, LockTable, new_state, can_grant, record_held, add_waiter,
  can_upgrade, put_lock, cancel_wait, refuse, acquire, holders_of, drop_waiter, acquire_exclusive,
}
use shanshui_cunji.Txn.Locks.Grant.{IsHeld, WellFormed, upgrade_holders, add_waiter_holders}

refuse-ne-ok : (t : LockTable) (txn docid : ℕ) → (refuse t txn docid).0 ≢ ok tt
unfolding refuse
refuse-ne-ok t txn docid e = ground arith

-- In a well-formed table, a granted exclusive request leaves the requester as the one holder of the
-- document, with the lock marked exclusive.
pub acquire_exclusive_alone :
    (t : LockTable) (txn docid : ℕ)
    → WellFormed t
    → (acquire_exclusive t txn docid).0 ≡ ok tt
    → (s : LockState) × (lookup docid (acquire_exclusive t txn docid).1.locks ≡ some s)
      × (s.holders ≡ txn ∷ [])
      × (s.is_exclusive ≡ true)
unfolding acquire_exclusive acquire
acquire_exclusive_alone t txn docid wf granted = elim (Option-cases (lookup docid t.locks)) [
  | inl e ↦ rw e (
      unfold put_lock record_held new_state in
      (new_state txn exclusive, rw (lookup-insert, ==_refl), refl, refl))
  | inr (s, e) ↦
      let h : IsHeld s = rw e at (wf.states docid) in
      elim (Bool-cases (can_grant s exclusive)) [
        | inl free ↦ absurd (h.some_holder (unfold can_grant in ground arith))
        | inr no' ↦ elim (Bool-cases (can_upgrade s txn exclusive)) [
          | inl up ↦
              rw (e, no', up)
                (unfold put_lock in
                  (
                    record s { is_exclusive = true },
                    rw (lookup-insert, ==_refl),
                    upgrade_holders s txn exclusive up,
                    refl,
                  ))
          | inr stay ↦ absurd (
              refuse-ne-ok (put_lock t docid (add_waiter s txn exclusive)) txn docid
                (rw (e, no', stay) at granted))
        ]
      ]
]

refuse_holders :
    (t : LockTable) (txn docid : ℕ)
    → holders_of (lookup docid (refuse t txn docid).1.locks) ≡ holders_of (lookup docid t.locks)
unfolding refuse cancel_wait
refuse_holders t txn docid = elim (Option-cases (lookup docid t.locks)) [
  | inl e ↦ ground (arith, e)
  | inr (s, e) ↦ ground (
    arith,
    e,
    lookup-insert docid docid (record s { waiters = drop_waiter txn s.waiters }) t.locks,
  )
]

blocked_refuse :
    (t : LockTable) (txn docid u : ℕ) (mode : LockMode) (s : LockState)
    → lookup docid t.locks ≡ some s
    → s.holders ≡ u ∷ []
    → s.is_exclusive ≡ true
    → acquire t txn docid mode ≡ refuse (put_lock t docid (add_waiter s txn mode)) txn docid
unfolding acquire can_grant can_upgrade
blocked_refuse t txn docid u shared s e hs ex = ground arith
blocked_refuse t txn docid u exclusive s e hs ex = ground arith

-- While a document is locked exclusively, every request for it is refused, one of its holder too,
-- and the holder stays.
pub acquire_blocked :
    (t : LockTable) (txn docid u : ℕ) (mode : LockMode) (s : LockState)
    → lookup docid t.locks ≡ some s
    → s.holders ≡ u ∷ []
    → s.is_exclusive ≡ true
    → ((acquire t txn docid mode).0 ≢ ok tt)
      × (holders_of (lookup docid (acquire t txn docid mode).1.locks) ≡ u ∷ [])
acquire_blocked t txn docid u mode s e hs ex =
    let t' = put_lock t docid (add_waiter s txn mode) in
    rw (blocked_refuse t txn docid u mode s e hs ex) (
      refuse-ne-ok t' txn docid,
      refuse_holders t' txn docid
          ∙ unfold put_lock in rw (lookup-insert, ==_refl) (add_waiter_holders s txn mode ∙ hs),
    )
