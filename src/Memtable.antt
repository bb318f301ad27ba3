-- ===== src/Memtable.antt =====
-- src/memtable.rs: the in-memory table with its version chains, and the double buffer. The skip list
-- of the package crossbeam_skiplist is an instance of the interface `SkipMap` of SkipList.
pub mod Versions
pub mod Range
pub mod Buffer
use shanshui_cunji.Prelude.{
  ℕ, zero, suc, ◌+◌, Bool, true, false, not, Option, none, some, List, [], ◌∷◌, ◌++◌, leb, ltb,
  if◌then◌else◌, length, is_some, or_else,
}
use shanshui_cunji.Bytes.{Bytes, bytes_lt}
use shanshui_cunji.SkipList.{Entries, SkipMap}

-- `value = none` is a tombstone.
pub record MemTableEntry : Type 0 where
  pub seq : ℕ
  pub value : Option Bytes

abbrev pub Versions : Type 0
Versions = List MemTableEntry

pub record MemTable (M : Type 0) : Type 0 where
  pub inner : M
  pub approx_bytes : ℕ
  pub len : ℕ

unfoldable pub last : Versions → Option MemTableEntry
last [] = none
last (v ∷ []) = some v
last (v ∷ w ∷ vs) = last (w ∷ vs)

-- `.iter().rev().find(|v| v.seq <= snapshot_seq)`
unfoldable pub last_at : ℕ → Versions → Option MemTableEntry
last_at snapshot_seq [] = none
last_at snapshot_seq (v ∷ vs) =
    or_else (last_at snapshot_seq vs) (if leb v.seq snapshot_seq then some v else none)

abbrev pub of_versions : (Versions → Option MemTableEntry) → Option Versions → Option MemTableEntry
of_versions f none = none
of_versions f (some vs) = f vs

-- What a scan hands to its closure, in its order.
abbrev pub rows_of : Bytes → Versions → List (Bytes × MemTableEntry)
rows_of key [] = []
rows_of key (v ∷ vs) = (key, v) ∷ rows_of key vs

unfoldable pub scan_map : Entries Versions → List (Bytes × MemTableEntry)
scan_map [] = []
scan_map ((k, vs) ∷ m) = rows_of k vs ++ scan_map m

-- The loop stops at the first key beyond the end.
unfoldable pub until_end : Option Bytes → Entries Versions → Entries Versions
until_end none m = m
until_end (some e) [] = []
until_end (some e) ((k, vs) ∷ m) =
    let rest = until_end (some e) m in if bytes_lt e k then [] else (k, vs) ∷ rest

pub record MemTableBuffer (M : Type 0) : Type 0 where
  pub mutable : MemTable M
  pub immutable : Option (MemTable M)

-- Of the two tables' answers, the immutable one's only if its `seq` is larger.
unfoldable pub newer : Option MemTableEntry → Option MemTableEntry → Option MemTableEntry
newer best none = best
newer none (some e) = some e
newer (some b) (some e) = if ltb b.seq e.seq then some e else some b

module _ {M : Type 0} ⦃lib : SkipMap Versions M⦄ where
  unfoldable pub new_table : MemTable M
  new_table = record { inner = lib.empty; approx_bytes = 0; len = 0 }

  unfoldable pub put_on : MemTable M → Bytes → ℕ → Bytes → Option Versions → MemTable M
  put_on t key seq value (some versions) = record {
    inner = lib.insert key (versions ++ (record { seq = seq; value = some value } ∷ [])) t.inner;
    approx_bytes = t.approx_bytes + length value;
    len = t.len;
  }
  put_on t key seq value none = record {
    inner = lib.insert key (record { seq = seq; value = some value } ∷ []) t.inner;
    approx_bytes = t.approx_bytes + length value;
    len = t.len + 1;
  }

  unfoldable pub put : MemTable M → Bytes → ℕ → Bytes → MemTable M
  unfolding put_on
  put t key seq value = put_on t key seq value (lib.get key t.inner)

  unfoldable pub delete_on : MemTable M → Bytes → ℕ → Option Versions → MemTable M
  delete_on t key seq (some versions) = record t {
    inner = lib.insert key (versions ++ (record { seq = seq; value = none } ∷ [])) t.inner;
  }
  delete_on t key seq none = record {
    inner = lib.insert key (record { seq = seq; value = none } ∷ []) t.inner;
    approx_bytes = t.approx_bytes;
    len = t.len + 1;
  }

  unfoldable pub delete : MemTable M → Bytes → ℕ → MemTable M
  unfolding delete_on
  delete t key seq = delete_on t key seq (lib.get key t.inner)

  unfoldable pub get : MemTable M → Bytes → Option MemTableEntry
  get t key = of_versions last (lib.get key t.inner)

  unfoldable pub get_at : MemTable M → Bytes → ℕ → Option MemTableEntry
  get_at t key snapshot_seq = of_versions (last_at snapshot_seq) (lib.get key t.inner)

  unfoldable pub contains_key : MemTable M → Bytes → Bool
  contains_key t key = lib.contains_key key t.inner

  unfoldable pub scan : MemTable M → List (Bytes × MemTableEntry)
  unfolding scan_map
  scan t = scan_map (lib.iter t.inner)

  -- `range` with the bound `Included(start)`, or with none, which is all the entries.
  unfoldable pub from_start : Option Bytes → M → Entries Versions
  from_start none m = lib.iter m
  from_start (some s) m = lib.range_from s m

  unfoldable pub scan_range :
      MemTable M → Option Bytes → Option Bytes → List (Bytes × MemTableEntry)
  unfolding from_start until_end scan_map
  scan_range t start end' = scan_map (until_end end' (from_start start t.inner))

  unfoldable pub new_buffer : MemTableBuffer M
  new_buffer = record { mutable = new_table; immutable = none }

  unfoldable pub buffer_put : MemTableBuffer M → Bytes → ℕ → Bytes → MemTableBuffer M
  buffer_put b key seq value = record b { mutable = put b.mutable key seq value }

  unfoldable pub buffer_delete : MemTableBuffer M → Bytes → ℕ → MemTableBuffer M
  buffer_delete b key seq = record b { mutable = delete b.mutable key seq }

  abbrev pub from_table :
      (MemTable M → Option MemTableEntry) → Option (MemTable M) → Option MemTableEntry
  from_table f none = none
  from_table f (some t) = f t

  unfoldable pub buffer_get : MemTableBuffer M → Bytes → Option MemTableEntry
  buffer_get b key = or_else (get b.mutable key) (from_table (λ t. get t key) b.immutable)

  unfoldable pub buffer_get_at : MemTableBuffer M → Bytes → ℕ → Option MemTableEntry
  unfolding newer
  buffer_get_at b key snapshot_seq =
      newer (get_at b.mutable key snapshot_seq)
        (from_table (λ t. get_at t key snapshot_seq) b.immutable)

  -- As in a release build, where the `debug_assert!` on `immutable` is left out.
  unfoldable pub switch : MemTableBuffer M → MemTableBuffer M
  switch b = record { mutable = new_table; immutable = some b.mutable }

  unfoldable pub take_immutable : MemTableBuffer M → Option (MemTable M) × MemTableBuffer M
  take_immutable b = (b.immutable, record b { immutable = none })

  abbrev pub scan_table :
      Option Bytes → Option Bytes → Option (MemTable M) → List (Bytes × MemTableEntry)
  scan_table start end' none = []
  scan_table start end' (some t) = scan_range t start end'

  unfoldable pub buffer_scan_range :
      MemTableBuffer M → Option Bytes → Option Bytes → List (Bytes × MemTableEntry)
  buffer_scan_range b start end' =
      scan_table start end' b.immutable ++ scan_range b.mutable start end'
