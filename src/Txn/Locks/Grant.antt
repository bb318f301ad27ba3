-- ===== src/Txn/Locks/Grant.antt =====
-- What a grant promises: well-formed tables stay well-formed, and an exclusive lock has one holder.
use shanshui_cunji.Prelude.{
  ℕ, ◌≡◌, ◌≢◌, refl, Bool, true, false, ◌||◌, Option, none, some, List, [], ◌∷◌, ◌++◌, arith, ◌==◌,
  ==_refl, if◌then◌else◌, length, any, contains, Map, lookup, insert, remove, lookup-insert,
  Option-cases, Bool-cases, inl, inr,
}
use shanshui_cunji.Txn.Locks.{
  LockMode, shared, exclusive, LockState, LockTable, new_state, can_grant, held_by, record_held,
  add_holder, add_waiter, can_upgrade, put_lock, cancel_wait, refuse, acquire, holders_of,
  drop_waiter, detect_deadlock, only,
}

-- A lock state that is in the table has a holder, and one holder only if it is exclusive.
pub record IsHeld (s : LockState) : Type 0 where
  pub some_holder : s.holders ≢ []
  pub exclusive_one : s.is_exclusive ≡ true → length s.holders ≡ 1

abbrev pub IsHeld? : Option LockState → Type 0
IsHeld? none = Unit
IsHeld? (some s) = IsHeld s

-- Every lock state in the table is held, and a transaction's list names exactly the documents whose
-- locks it holds.
pub record WellFormed (t : LockTable) : Type 0 where
  pub states : (docid : ℕ) → IsHeld? (lookup docid t.locks)
  pub agree :
      (docid txn : ℕ)
      → contains (held_by t txn) docid ≡ contains (holders_of (lookup docid t.locks)) txn

pub contains-append :
    (xs ys : List ℕ) (a : ℕ) → contains (xs ++ ys) a ≡ (contains xs a || contains ys a)
contains-append [] ys a = refl
contains-append (x ∷ xs) ys a = ground (arith, contains-append xs ys a)

-- A held lock state written over what stood at `docid`.
states-insert :
    (t : LockTable) (docid d : ℕ) (s' : LockState)
    → WellFormed t
    → IsHeld s'
    → IsHeld? (lookup d (insert docid s' t.locks))
states-insert t docid d s' wf new = rw lookup-insert (split (docid == d))
  where
    split : (b : Bool) → IsHeld? (if b then some s' else lookup d t.locks)
    split true = new
    split false = wf.states d

module _ (t : LockTable) (txn docid : ℕ) (s' : LockState) (wf : WellFormed t)
    (new : IsHeld s') where
  -- `txn` joins the holders, and is recorded.
  grant-WellFormed :
      contains s'.holders txn ≡ true
      → ((u : ℕ) → u ≢ txn → contains s'.holders u ≡ contains (holders_of (lookup docid t.locks)) u)
      → WellFormed (record_held (put_lock t docid s') txn docid)
  unfolding record_held put_lock held_by
  grant-WellFormed has keeps = record {
    states = λ d. states-insert t docid d s' wf new;
    agree = λ d u. ground (
      arith,
      lookup-insert docid d s' t.locks,
      lookup-insert txn u (held_by t txn ++ (docid ∷ [])) t.held,
      contains-append (held_by t txn) (docid ∷ []) d,
      wf.agree d u,
      keeps u,
    );
  }

  -- The holders stay as they are.
  rewrite-WellFormed :
      s'.holders ≡ holders_of (lookup docid t.locks) → WellFormed (put_lock t docid s')
  unfolding put_lock held_by
  rewrite-WellFormed same = record {
    states = λ d. states-insert t docid d s' wf new;
    agree = λ d u. ground (arith, lookup-insert docid d s' t.locks, wf.agree d u);
  }

-- What a table says of waiting transactions plays no part in its well-formedness.
waiting-WellFormed :
    (t : LockTable) (w : Map ℕ) → WellFormed t → WellFormed (record t { waiting = w })
unfolding held_by
waiting-WellFormed t w wf = record { states = wf.states; agree = wf.agree }

cancel_wait-WellFormed :
    (t : LockTable) (txn docid : ℕ) → WellFormed t → WellFormed (cancel_wait t txn docid)
unfolding cancel_wait put_lock
cancel_wait-WellFormed t txn docid wf = elim (Option-cases (lookup docid t.locks)) [
  | inl e ↦ rw e (waiting-WellFormed t (remove txn t.waiting) wf)
  | inr (s, e) ↦
      let s' : LockState = record s { waiters = drop_waiter txn s.waiters } in
      let old : IsHeld s = rw e at (wf.states docid) in
      rw e (
        waiting-WellFormed (put_lock t docid s') (remove txn t.waiting) (
          rewrite-WellFormed t txn docid s' wf
            (record { some_holder = old.some_holder; exclusive_one = old.exclusive_one }) (rw e)))
]

refuse-WellFormed :
    (t : LockTable) (txn docid : ℕ) → WellFormed t → WellFormed (refuse t txn docid).1
unfolding refuse
refuse-WellFormed t txn docid wf =
    let w = insert txn docid t.waiting in
    let t' : LockTable = record t { waiting = w } in
    let wf' = waiting-WellFormed t w wf in
    elim (Bool-cases (detect_deadlock t' txn)) [
      | inl cycle ↦ rw cycle (cancel_wait-WellFormed t' txn docid wf')
      | inr none_found ↦ rw none_found wf'
    ]

holders-nonempty : (s : LockState) (txn : ℕ) → IsHeld s → (add_holder s txn).holders ≢ []
unfolding add_holder
holders-nonempty s txn h = elim (Bool-cases (contains s.holders txn)) [
  | inl old ↦ rw old h.some_holder
  | inr new ↦ rw new (append-ne-nil s.holders)
]
  where
    append-ne-nil : (xs : List ℕ) → (xs ++ (txn ∷ [])) ≢ []
    append-ne-nil [] e = cc
    append-ne-nil (x ∷ xs) e = cc

-- A granted request finds no exclusive holder.
grant_free :
    (s : LockState) (mode : LockMode) → IsHeld s → can_grant s mode ≡ true → s.is_exclusive ≡ false
unfolding can_grant
grant_free s shared h g = ground arith
grant_free s exclusive h g = absurd (h.some_holder (ground arith))

granted-IsHeld :
    (s : LockState) (txn : ℕ) (mode : LockMode)
    → IsHeld s
    → can_grant s mode ≡ true
    → IsHeld (add_holder s txn)
granted-IsHeld s txn mode h g = record {
  some_holder = holders-nonempty s txn h;
  exclusive_one = unfold add_holder in λ e. ground (arith, grant_free s mode h g);
}

module _ (s : LockState) (txn : ℕ) where
  add_holder_has : contains (add_holder s txn).holders txn ≡ true
  unfolding add_holder
  add_holder_has = ground (arith, contains-append s.holders (txn ∷ []) txn)

  add_holder_keeps :
      (u : ℕ) → u ≢ txn → contains (add_holder s txn).holders u ≡ contains s.holders u
  unfolding add_holder
  add_holder_keeps u ne = ground (arith, contains-append s.holders (txn ∷ []) u)

  only_one : (hs : List ℕ) → only hs txn ≡ true → hs ≡ txn ∷ []
  only_one [] e = cc
  only_one (h ∷ hs) e = ground arith

  pub upgrade_holders : (mode : LockMode) → can_upgrade s txn mode ≡ true → s.holders ≡ txn ∷ []
  unfolding can_upgrade
  upgrade_holders mode e = only_one s.holders (ground arith)

  pub add_waiter_holders : (mode : LockMode) → (add_waiter s txn mode).holders ≡ s.holders
  unfolding add_waiter
  add_waiter_holders mode = ground arith

  add_waiter-IsHeld : (mode : LockMode) → IsHeld s → IsHeld (add_waiter s txn mode)
  unfolding add_waiter
  add_waiter-IsHeld mode h = elim (Bool-cases (any (λ w. w.0 == txn) s.waiters)) [
    | inl old ↦ rw old h
    | inr new ↦ rw new (record { some_holder = h.some_holder; exclusive_one = h.exclusive_one })
  ]

-- A request, granted or refused, keeps the lock table well-formed.
pub acquire-WellFormed :
    (t : LockTable) (txn docid : ℕ) (mode : LockMode)
    → WellFormed t
    → WellFormed (acquire t txn docid mode).1
unfolding acquire
acquire-WellFormed t txn docid mode wf = elim (Option-cases (lookup docid t.locks)) [
  | inl e ↦ rw e (
      grant-WellFormed t txn docid (new_state txn mode) wf
        (unfold new_state in record { some_holder = λ q. cc; exclusive_one = λ q. refl })
        (unfold new_state in rw ==_refl) (unfold new_state in λ u ne. rw e (ground arith)))
  | inr (s, e) ↦
      let h : IsHeld s = rw e at (wf.states docid) in
      rw e (elim (Bool-cases (can_grant s mode)) [
        | inl yes' ↦ rw yes' (
            grant-WellFormed t txn docid (add_holder s txn) wf (granted-IsHeld s txn mode h yes')
              (add_holder_has s txn) (rw e (add_holder_keeps s txn)))
        | inr no' ↦ elim (Bool-cases (can_upgrade s txn mode)) [
          | inl up ↦
              rw (no', up)
                (rewrite-WellFormed t txn docid (record s { is_exclusive = true }) wf
                  (record {
                    some_holder = h.some_holder;
                    exclusive_one = λ q. rw (upgrade_holders s txn mode up);
                  })
                  (rw e))
          | inr stay ↦
              rw (no', stay)
                (refuse-WellFormed (put_lock t docid (add_waiter s txn mode)) txn docid (
                  rewrite-WellFormed t txn docid (add_waiter s txn mode) wf
                    (add_waiter-IsHeld s txn mode h) (rw (e, add_waiter_holders s txn mode))))
        ]
      ])
]
