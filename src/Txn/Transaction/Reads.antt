-- ===== src/Txn/Transaction/Reads.antt =====
-- What a transaction reads of its own writes and of its snapshot cache.
use Prim.Native.String.{String}
use shanshui_cunji.Prelude.{
  ℕ, ◌+◌, ◌≤◌, ◌≡◌, refl, true, Option, none, some, List, [], ◌∷◌, ◌++◌, arith, leb, ◌==◌, ==_refl,
  if◌then◌else◌, length, contains, Map, insert, lookup-insert, or_else,
}
use shanshui_cunji.Errors.{ok, err, txn_conflict}
use shanshui_cunji.Bytes.{Bytes}
use shanshui_cunji.Txn.Batch.{Op, put, delete, docid_of, writes, writes-append}
use shanshui_cunji.Txn.Transaction.{
  Isolation, Transaction, new_txn, txn_put, txn_delete, set_insert, read_own_in, own_write,
  read_own, snap_get, snap_put, cache_limit, validate_txn, add_lock, mark_finished,
}

read_own_in-append :
    (ops : List Op) (op : Op) (d : ℕ)
    → read_own_in (ops ++ (op ∷ [])) d ≡ or_else (own_write d op) (read_own_in ops d)
unfolding read_own_in
read_own_in-append [] op d = ground arith
read_own_in-append (o ∷ ops) op d = ground (arith, read_own_in-append ops op d)

-- A transaction reads its own last write of a document: after a put the new value, after a delete
-- that the document is gone, and for every other document what it read before.
pub read_own_lem :
    (t : Transaction) (docid d : ℕ) (value : Bytes) (terms : List String)
    → (read_own (txn_put t docid value terms) d
        ≡ (if docid == d then some (some value) else read_own t d))
      × (read_own (txn_delete t docid) d ≡ (if docid == d then some none else read_own t d))
unfolding read_own txn_put txn_delete
read_own_lem t docid d value terms = (
  ground (arith, read_own_in-append t.ops (put docid value terms) d),
  ground (arith, read_own_in-append t.ops (delete docid) d),
)

-- The handles that calls of `put` and `delete` build from a new transaction; other calls change
-- neither the writes nor the write set.
pub data Built : Transaction → Type 0 where
  fresh : (seq : ℕ) (i : Isolation) (snap : ℕ) → Built (new_txn seq i snap)
  after_put :
      {t : Transaction} (d : ℕ) (v : Bytes) (ts : List String) → Built t → Built (txn_put t d v ts)
  after_delete : {t : Transaction} (d : ℕ) → Built t → Built (txn_delete t d)
  after_snap : {t : Transaction} (d : ℕ) (v : Option Bytes) → Built t → Built (snap_put t d v)
  after_lock : {t : Transaction} (d : ℕ) → Built t → Built (add_lock t d)
  after_finish : {t : Transaction} → Built t → Built (mark_finished t)

set_insert_lem :
    (ds : List ℕ) (d e : ℕ)
    → contains (set_insert d ds) e ≡ (if d == e then true else contains ds e)
set_insert_lem ds d e = ground arith

write_set-writes : {t : Transaction} (d : ℕ) → Built t → contains t.write_set d ≡ writes t.ops d
unfolding new_txn txn_put txn_delete snap_put add_lock mark_finished docid_of
write_set-writes d (fresh seq i snap) = refl
write_set-writes d (after_put {t = t} e v ts b) = ground (
  arith,
  write_set-writes d b,
  set_insert_lem t.write_set e d,
  writes-append t.ops (put e v ts) d,
)
write_set-writes d (after_delete {t = t} e b) =
    ground (
      arith,
      write_set-writes d b,
      set_insert_lem t.write_set e d,
      writes-append t.ops (delete e) d,
    )
write_set-writes d (after_snap e v b) = write_set-writes d b
write_set-writes d (after_lock {t = t} e b) = ground (arith, write_set-writes d b)
write_set-writes d (after_finish b) = write_set-writes d b

-- For a handle that its methods build from a new transaction: the write set is exactly the set of documents that its operations write, and the
-- transaction is refused exactly when document 0 is one of them.
pub validate_txn_lem :
    (t : Transaction) (d : ℕ)
    → Built t
    → (contains t.write_set d ≡ writes t.ops d)
      × (validate_txn t ≡ (if writes t.ops 0 then err txn_conflict else ok tt))
unfolding validate_txn
validate_txn_lem t d b = (write_set-writes d b, ground (arith, write_set-writes 0 b))

length-insert {ℓ} : {V : Type ℓ} (k : ℕ) (v : V) (m : Map V) → length (insert k v m) ≤ length m + 1
unfolding insert
length-insert k v [] = omega arith
length-insert k v ((j, w) ∷ m) = ground (arith, length-insert k v m)

-- A value put into the snapshot cache is read back, and a cache of at most 256 entries never grows
-- beyond them.
pub snap_put_lem :
    (t : Transaction) (docid : ℕ) (value : Option Bytes)
    → length t.snap_cache ≤ cache_limit
    → (snap_get (snap_put t docid value) docid ≡ some value)
      × (length (snap_put t docid value).snap_cache ≤ cache_limit)
unfolding snap_get snap_put
snap_put_lem t docid value h =
    let kept = if leb cache_limit (length t.snap_cache) then [] else t.snap_cache in
    (rw (lookup-insert, ==_refl), ground (arith, length-insert docid value kept))
