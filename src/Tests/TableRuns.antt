-- ===== src/Tests/TableRuns.antt =====
-- A history of four writes of two keys, and a switch after two of them.
use shanshui_cunji.Prelude.{◌≡◌, refl, none, some, List, [], ◌∷◌, ◌++◌, retain, arith}
use shanshui_cunji.Bytes.{Bytes, bytes_eq, bytes_lt}
use shanshui_cunji.SkipList.{Entries, SkipMap, sorted_list, sorted_get, sorted_insert}
use shanshui_cunji.Memtable.{
  Versions, MemTable, new_table, get, get_at, scan, scan_range, buffer_get, buffer_get_at, delete,
  last_at, put,
}
use shanshui_cunji.Memtable.Versions.{
  Write, apply_all, last_write, last_write_at, reads_of_history, apply,
}
use shanshui_cunji.Memtable.Range.{WellFormed, history-WellFormed, in_range, scan_range-in_range}
use shanshui_cunji.Memtable.Buffer.{two_rounds, switch_invisible}

abbrev Rows : Type 0
Rows = Entries Versions

instance abbrev row_map : SkipMap Versions Rows
row_map = sorted_list Versions

abbrev key_a : Bytes
key_a = 97 ∷ []

abbrev key_b : Bytes
key_b = 98 ∷ 0 ∷ []

abbrev older : List Write
older =
    (record { key = key_b; seq = 1; value = some (10 ∷ []) })
    ∷ (record { key = key_a; seq = 2; value = some (20 ∷ []) })
    ∷ []

abbrev recent : List Write
recent =
    (record { key = key_b; seq = 3; value = none })
    ∷ (record { key = key_a; seq = 4; value = some (40 ∷ []) })
    ∷ []

abbrev filled : MemTable Rows
filled = apply_all (new_table {M = Rows}) older

deleted_at :
    get_at (apply_all (new_table {M = Rows}) (older ++ recent)) key_b 3
    ≡ some (record { seq = 3; value = none })
unfolding get_at sorted_get apply_all apply put delete new_table sorted_insert bytes_eq bytes_lt
    last_at
deleted_at = refl

before_delete :
    get_at (apply_all (new_table {M = Rows}) (older ++ recent)) key_b 2
    ≡ some (record { seq = 1; value = some (10 ∷ []) })
unfolding get_at sorted_get apply_all apply put delete new_table sorted_insert bytes_eq bytes_lt
    last_at
before_delete = refl

new_table-WellFormed : WellFormed (new_table {M = Rows})
unfolding new_table
new_table-WellFormed = record { sorted = tt; counted = refl }

filled-WellFormed : WellFormed filled
filled-WellFormed = history-WellFormed older (new_table {M = Rows}) new_table-WellFormed

reads_of_history_example :
    (get (apply_all (new_table {M = Rows}) (older ++ recent)) key_a
      ≡ last_write key_a (older ++ recent))
    × (get_at (apply_all (new_table {M = Rows}) (older ++ recent)) key_a 3
        ≡ last_write_at key_a 3 (older ++ recent))
reads_of_history_example = reads_of_history Rows (older ++ recent) key_a 3

switch_invisible_example :
    (buffer_get (two_rounds {M = Rows} older recent) key_b ≡ last_write key_b (older ++ recent))
    × (buffer_get_at (two_rounds {M = Rows} older recent) key_b 2
        ≡ last_write_at key_b 2 (older ++ recent))
switch_invisible_example =
    switch_invisible Rows older recent 2 2 key_b (omega arith, (omega arith, tt))
      (omega arith, (omega arith, tt))

scan_range-in_range_example :
    scan_range filled (some key_a) (some key_a)
    ≡ retain (λ r. in_range (some key_a) (some key_a) r.0) (scan filled)
scan_range-in_range_example = scan_range-in_range filled (some key_a) (some key_a) filled-WellFormed
