-- ===== src/Txn/Locks/Release.antt =====
-- `release` gives up every lock of one transaction and touches nobody else's.
use shanshui_cunji.Prelude.{
  ℕ, ◌≡◌, ◌≢◌, refl, Bool, true, false, not, ◌&&◌, Option, none, some, List, [], ◌∷◌, arith, ◌==◌,
  if◌then◌else◌, contains, Map, lookup, lookup-insert, lookup-remove, Option-cases, Bool-cases, inl,
  inr,
}
use shanshui_cunji.Txn.Locks.{
  LockState, LockTable, held_by, holders_of, others, is_empty, release_at, release_docids, release,
}
use shanshui_cunji.Txn.Locks.Grant.{IsHeld?, WellFormed}

-- What is left of a lock state once `txn` has left it.
abbrev without : ℕ → Option LockState → Option LockState
without txn none = none
without txn (some s) =
    if is_empty (others txn s.holders)
    then none
    else some (record { holders = others txn s.holders; is_exclusive = false; waiters = [] })

lookup-release_at :
    (txn docid k : ℕ) (locks : Map LockState)
    → lookup k (release_at txn docid (lookup docid locks) locks)
      ≡ (if docid == k then without txn (lookup k locks) else lookup k locks)
unfolding release_at
lookup-release_at txn docid k locks = elim (Option-cases (lookup docid locks)) [
  | inl e ↦ ground (arith, e)
  | inr (s, e) ↦
      let s' : LockState = record {
        holders = others txn s.holders;
        is_exclusive = false;
        waiters = [];
      } in
      ground (arith, e, lookup-insert docid k s' locks, lookup-remove docid k locks)
]

others-others : (txn : ℕ) (hs : List ℕ) → others txn (others txn hs) ≡ others txn hs
others-others txn [] = refl
others-others txn (h ∷ hs) = ground (arith, others-others txn hs)

without-without : (txn : ℕ) (o : Option LockState) → without txn (without txn o) ≡ without txn o
without-without txn none = refl
without-without txn (some s) = ground (arith, others-others txn s.holders)

lookup-release_docids :
    (txn k : ℕ) (docids : List ℕ) (locks : Map LockState)
    → lookup k (release_docids txn docids locks)
      ≡ (if contains docids k then without txn (lookup k locks) else lookup k locks)
unfolding release_docids
lookup-release_docids txn k [] locks = refl
lookup-release_docids txn k (d ∷ ds) locks = ground (
  arith,
  lookup-release_docids txn k ds (release_at txn d (lookup d locks) locks),
  lookup-release_at txn d k locks,
  without-without txn (lookup k locks),
)

contains-others :
    (txn u : ℕ) (hs : List ℕ) → contains (others txn hs) u ≡ (not (txn == u) && contains hs u)
contains-others txn u [] = ground arith
contains-others txn u (h ∷ hs) = ground (arith, contains-others txn u hs)

holders-without :
    (txn u : ℕ) (o : Option LockState)
    → contains (holders_of (without txn o)) u ≡ (not (txn == u) && contains (holders_of o) u)
holders-without txn u none = ground arith
holders-without txn u (some s) = elim (Bool-cases (is_empty (others txn s.holders))) [
  | inl gone ↦ ground (arith, contains-others txn u s.holders)
  | inr left ↦ rw left (contains-others txn u s.holders)
]

-- In a well-formed table, after a release the transaction holds no document, and every other
-- transaction holds exactly what it held.
pub release_holders :
    (t : LockTable) (txn docid u : ℕ)
    → WellFormed t
    → contains (holders_of (lookup docid (release t txn).locks)) u
      ≡ (not (txn == u) && contains (holders_of (lookup docid t.locks)) u)
unfolding release
release_holders t txn docid u wf = ground (
  arith,
  lookup-release_docids txn docid (held_by t txn) t.locks,
  holders-without txn u (lookup docid t.locks),
  wf.agree docid txn,
)

IsHeld?-without : (txn : ℕ) (o : Option LockState) → IsHeld? (without txn o)
IsHeld?-without txn none = tt
IsHeld?-without txn (some s) = elim (Bool-cases (is_empty (others txn s.holders))) [
  | inl gone ↦ rw gone tt
  | inr left ↦ rw left (record { some_holder = λ e. ground arith; exclusive_one = λ e. cc })
]

release_state :
    (t : LockTable) (txn d : ℕ) → WellFormed t → IsHeld? (lookup d (release t txn).locks)
unfolding release
release_state t txn d wf = rw lookup-release_docids (split (contains (held_by t txn) d))
  where
    split : (b : Bool) → IsHeld? (if b then without txn (lookup d t.locks) else lookup d t.locks)
    split true = IsHeld?-without txn (lookup d t.locks)
    split false = wf.states d

-- A release keeps the lock table well-formed.
pub release-WellFormed : (t : LockTable) (txn : ℕ) → WellFormed t → WellFormed (release t txn)
unfolding held_by release
release-WellFormed t txn wf = record {
  states = λ d. release_state t txn d wf;
  agree =
      λ d u. ground (arith, release_holders t txn d u wf, lookup-remove txn u t.held, wf.agree d u);
}

-- In a well-formed table, a lock with one holder outlives the release of any other transaction, its
-- mode and its waiters included.
pub release_keeps_exclusive :
    (t : LockTable) (txn docid u : ℕ) (s : LockState)
    → WellFormed t
    → txn ≢ u
    → lookup docid t.locks ≡ some s
    → s.holders ≡ u ∷ []
    → lookup docid (release t txn).locks ≡ some s
unfolding release
release_keeps_exclusive t txn docid u s wf ne e hs =
    ground (arith, lookup-release_docids txn docid (held_by t txn) t.locks, wf.agree docid txn)
