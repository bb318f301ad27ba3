-- ===== src/Txn/Locks.antt =====
-- The lock table of src/txn.rs: shared and exclusive locks on document ids, and the search for a
-- cycle of waiting transactions.
pub mod Grant
pub mod Exclusive
pub mod Release
pub mod Deadlock
pub mod Waits
use shanshui_cunji.Prelude.{
  ℕ, zero, suc, ◌+◌, Bool, true, false, not, ◌&&◌, ◌||◌, Option, none, some, List, [], ◌∷◌, ◌++◌,
  ltb, ◌==◌, if◌then◌else◌, length, retain, any, contains, Map, lookup, insert, remove, is_some,
}
use shanshui_cunji.Errors.{Result, ok, err, txn_conflict, txn_deadlock}

pub data LockMode : Type 0 where
  shared exclusive : LockMode

pub record LockState : Type 0 where
  pub holders : List ℕ
  pub is_exclusive : Bool
  pub waiters : List (ℕ × LockMode)

abbrev pub asks_exclusive : LockMode → Bool
asks_exclusive shared = false
asks_exclusive exclusive = true

unfoldable pub new_state : ℕ → LockMode → LockState
new_state txn mode = record { holders = txn ∷ []; is_exclusive = asks_exclusive mode; waiters = [] }

abbrev pub is_empty {ℓ} : {A : Type ℓ} → List A → Bool
is_empty [] = true
is_empty (x ∷ xs) = false

unfoldable pub can_grant : LockState → LockMode → Bool
can_grant s shared = not s.is_exclusive
can_grant s exclusive = is_empty s.holders

pub record LockTable : Type 0 where
  pub locks : Map LockState
  pub held : Map (List ℕ)
  pub waiting : Map ℕ

-- `self.held.entry(txn).or_default()`
abbrev pub or_default : Option (List ℕ) → List ℕ
or_default none = []
or_default (some docids) = docids

unfoldable pub held_by : LockTable → ℕ → List ℕ
held_by t txn = or_default (lookup txn t.held)

unfoldable pub record_held : LockTable → ℕ → ℕ → LockTable
unfolding held_by
record_held t txn docid = record t { held = insert txn (held_by t txn ++ (docid ∷ [])) t.held }

abbrev pub holders_of : Option LockState → List ℕ
holders_of none = []
holders_of (some s) = s.holders

abbrev pub waited_holders : LockTable → Option ℕ → List ℕ
waited_holders t none = []
waited_holders t (some docid) = holders_of (lookup docid t.locks)

-- The holders of the document that `cur` waits for, none where it waits for no document or for one
-- that nobody has locked.
unfoldable pub blockers : LockTable → ℕ → List ℕ
blockers t cur = waited_holders t (lookup cur t.waiting)

-- Transactions to be looked at, each with its distance from the start.
abbrev pub Stack : Type 0
Stack = List (ℕ × ℕ)

unfoldable pub push_holder : LockTable → ℕ → ℕ → ℕ → ℕ → Stack → Stack
push_holder t txn cur depth h stack =
    if h == cur
    then stack
    else if is_some (lookup h t.waiting) || h == txn
    then (h, depth + 1) ∷ stack
    else stack

unfoldable pub push_holders : LockTable → ℕ → ℕ → ℕ → List ℕ → Stack → Stack
push_holders t txn cur depth [] stack = stack
push_holders t txn cur depth (h ∷ hs) stack =
    push_holders t txn cur depth hs (push_holder t txn cur depth h stack)

-- The loop of `detect_deadlock`, on fuel.
unfoldable pub search_cycle : ℕ → LockTable → ℕ → Stack → List ℕ → Bool
search_cycle zero t txn stack visited = false
search_cycle (suc fuel) t txn [] visited = false
search_cycle (suc fuel) t txn ((cur, depth) ∷ stack) visited =
    let skipped = search_cycle fuel t txn stack visited in
    let expanded =
      search_cycle fuel t txn (push_holders t txn cur depth (blockers t cur) stack)
        (cur ∷ visited) in
    if ltb 0 depth && cur == txn then true else if contains visited cur then skipped else expanded

-- The holders that the transactions not yet visited can push.
unfoldable pub pushes_left : LockTable → List ℕ → Map ℕ → ℕ
pushes_left t visited [] = 0
pushes_left t visited ((w, docid) ∷ m) =
    (if contains visited w then 0 else length (holders_of (lookup docid t.locks)))
    + pushes_left t visited m

unfoldable pub detect_deadlock : LockTable → ℕ → Bool
detect_deadlock t txn = search_cycle (2 + pushes_left t [] t.waiting) t txn ((txn, 0) ∷ []) []

unfoldable pub drop_waiter : ℕ → List (ℕ × LockMode) → List (ℕ × LockMode)
drop_waiter txn ws = retain (λ w. not (w.0 == txn)) ws

unfoldable pub cancel_in : ℕ → ℕ → Option LockState → Map LockState → Map LockState
cancel_in txn docid none locks = locks
cancel_in txn docid (some s) locks =
    insert docid (record s { waiters = drop_waiter txn s.waiters }) locks

unfoldable pub cancel_wait : LockTable → ℕ → ℕ → LockTable
unfolding cancel_in
cancel_wait t txn docid = record t {
  locks = cancel_in txn docid (lookup docid t.locks) t.locks;
  waiting = remove txn t.waiting;
}

-- A refused request: the wait is kept if it closes no cycle.
unfoldable pub refuse : LockTable → ℕ → ℕ → Result (Unit {0}) × LockTable
refuse t txn docid =
    let t' = record t { waiting = insert txn docid t.waiting } in
    if detect_deadlock t' txn
    then (err txn_deadlock, cancel_wait t' txn docid)
    else (err txn_conflict, t')

unfoldable pub add_holder : LockState → ℕ → LockState
add_holder s txn =
    if contains s.holders txn then s else record s { holders = s.holders ++ (txn ∷ []) }

unfoldable pub add_waiter : LockState → ℕ → LockMode → LockState
add_waiter s txn mode =
    if any (λ w. w.0 == txn) s.waiters
    then s
    else record s { waiters = s.waiters ++ ((txn, mode) ∷ []) }

abbrev pub only : List ℕ → ℕ → Bool
only [] txn = false
only (h ∷ hs) txn = is_empty hs && h == txn

-- An exclusive request by the one holder of a shared lock.
unfoldable pub can_upgrade : LockState → ℕ → LockMode → Bool
can_upgrade s txn mode = asks_exclusive mode && (not s.is_exclusive && only s.holders txn)

unfoldable pub put_lock : LockTable → ℕ → LockState → LockTable
put_lock t docid s = record t { locks = insert docid s t.locks }

unfoldable pub acquire_at :
    LockTable → ℕ → ℕ → LockMode → Option LockState → Result (Unit {0}) × LockTable
acquire_at t txn docid mode none =
    (ok tt, record_held (put_lock t docid (new_state txn mode)) txn docid)
acquire_at t txn docid mode (some s) =
    if can_grant s mode
    then (ok tt, record_held (put_lock t docid (add_holder s txn)) txn docid)
    else if can_upgrade s txn mode
    then (ok tt, put_lock t docid (record s { is_exclusive = true }))
    else refuse (put_lock t docid (add_waiter s txn mode)) txn docid

unfoldable pub acquire : LockTable → ℕ → ℕ → LockMode → Result (Unit {0}) × LockTable
unfolding acquire_at
acquire t txn docid mode = acquire_at t txn docid mode (lookup docid t.locks)

unfoldable pub acquire_exclusive : LockTable → ℕ → ℕ → Result (Unit {0}) × LockTable
acquire_exclusive t txn docid = acquire t txn docid exclusive

unfoldable pub acquire_shared : LockTable → ℕ → ℕ → Result (Unit {0}) × LockTable
acquire_shared t txn docid = acquire t txn docid shared

abbrev pub others : ℕ → List ℕ → List ℕ
others txn hs = retain (λ h. not (h == txn)) hs

unfoldable pub release_at : ℕ → ℕ → Option LockState → Map LockState → Map LockState
release_at txn docid none locks = locks
release_at txn docid (some s) locks =
    if is_empty (others txn s.holders)
    then remove docid locks
    else insert docid
        (record { holders = others txn s.holders; is_exclusive = false; waiters = [] }) locks

unfoldable pub release_docids : ℕ → List ℕ → Map LockState → Map LockState
unfolding release_at
release_docids txn [] locks = locks
release_docids txn (d ∷ ds) locks = release_docids txn ds (release_at txn d (lookup d locks) locks)

unfoldable pub release : LockTable → ℕ → LockTable
release t txn = record {
  locks = release_docids txn (held_by t txn) t.locks;
  held = remove txn t.held;
  waiting = remove txn t.waiting;
}
