-- ===== src/Txn/Transaction.antt =====
-- The transaction handle of src/txn.rs: buffered writes, the write set and the snapshot cache.
pub mod Reads
use Prim.Native.String.{String}
use shanshui_cunji.Prelude.{
  ℕ, zero, suc, ◌≡◌, Bool, true, false, Option, none, some, List, [], ◌∷◌, ◌++◌, leb, ◌==◌,
  if◌then◌else◌, length, contains, Map, lookup, insert, or_else,
}
use shanshui_cunji.Errors.{Result, ok, err, txn_conflict, fail_if}
use shanshui_cunji.Bytes.{Bytes}
use shanshui_cunji.Txn.Batch.{Op, put, delete}

pub data Isolation : Type 0 where
  read_committed repeatable_read serializable : Isolation

unfoldable pub uses_snapshot : Isolation → Bool
uses_snapshot read_committed = false
uses_snapshot _ = true

unfoldable pub checks_write_conflict : Isolation → Bool
checks_write_conflict read_committed = false
checks_write_conflict _ = true

unfoldable pub locks_reads : Isolation → Bool
locks_reads serializable = true
locks_reads _ = false

-- A set is a list without repetitions.
abbrev pub set_insert : ℕ → List ℕ → List ℕ
set_insert d ds = if contains ds d then ds else d ∷ ds

pub record Transaction : Type 0 where
  pub id : ℕ
  pub isolation : Isolation
  pub snapshot_seq : ℕ
  pub ops : List Op
  pub write_set : List ℕ
  pub locks : List ℕ
  pub snap_cache : Map (Option Bytes)
  pub finished : Bool

unfoldable pub new_txn : ℕ → Isolation → ℕ → Transaction
new_txn seq isolation snapshot_seq = record {
  id = seq;
  isolation = isolation;
  snapshot_seq = snapshot_seq;
  ops = [];
  write_set = [];
  locks = [];
  snap_cache = [];
  finished = false;
}

unfoldable pub txn_put : Transaction → ℕ → Bytes → List String → Transaction
txn_put t docid value terms = record t {
  write_set = set_insert docid t.write_set;
  ops = t.ops ++ (put docid value terms ∷ []);
}

unfoldable pub txn_delete : Transaction → ℕ → Transaction
txn_delete t docid = record t {
  write_set = set_insert docid t.write_set;
  ops = t.ops ++ (delete docid ∷ []);
}

-- One operation's answer to a read: `none` goes on to the next.
unfoldable pub own_write : ℕ → Op → Option (Option Bytes)
own_write docid (put d value terms) = if d == docid then some (some value) else none
own_write docid (delete d) = if d == docid then some none else none

-- `for op in self.ops.iter().rev()`: what stands later in the list answers first.
unfoldable pub read_own_in : List Op → ℕ → Option (Option Bytes)
read_own_in [] docid = none
read_own_in (op ∷ ops) docid = or_else (read_own_in ops docid) (own_write docid op)

unfoldable pub read_own : Transaction → ℕ → Option (Option Bytes)
unfolding read_own_in own_write
read_own t docid = read_own_in t.ops docid

unfoldable pub snap_get : Transaction → ℕ → Option (Option Bytes)
snap_get t docid = lookup docid t.snap_cache

abbrev pub cache_limit : ℕ
cache_limit = 256

-- A full cache is emptied before the new entry.
unfoldable pub snap_put : Transaction → ℕ → Option Bytes → Transaction
snap_put t docid value = record t {
  snap_cache =
      insert docid value (if leb cache_limit (length t.snap_cache) then [] else t.snap_cache);
}

unfoldable pub add_lock : Transaction → ℕ → Transaction
add_lock t docid =
    if contains t.locks docid then t else record t { locks = t.locks ++ (docid ∷ []) }

unfoldable pub mark_finished : Transaction → Transaction
mark_finished t = record t { finished = true }

unfoldable pub validate_txn : Transaction → Result (Unit {0})
validate_txn t = fail_if (contains t.write_set 0) txn_conflict
