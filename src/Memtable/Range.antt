-- ===== src/Memtable/Range.antt =====
-- The skip list stays in key order, its counters are exact, and a range scan is the part of a full
-- scan that lies in the range.
use shanshui_cunji.Prelude.{
  ℕ, ◌+◌, ◌≡◌, refl, sym, ap, ◌∙◌, Bool, true, false, not, ◌&&◌, Option, none, some, List, [], ◌∷◌,
  ◌++◌, arith, if◌then◌else◌, length, retain, All, Bool-cases, Option-cases, inl, inr,
}
use shanshui_cunji.Bytes.{Bytes, bytes_lt}
use shanshui_cunji.Bytes.Total.{bytes_lt_trans}
use shanshui_cunji.SkipList.{Entries, SkipMap, sorted_from}
use shanshui_cunji.SkipList.Sorted.{IsAbove, IsSorted, sorted_insert-IsSorted, length-sorted_insert}
use shanshui_cunji.Memtable.{
  MemTableEntry, Versions, MemTable, put, delete, rows_of, scan_map, scan, from_start, until_end,
  scan_range,
}
use shanshui_cunji.Memtable.Versions.{Write, apply_value, apply, apply_all}

abbrev pub at_least : Option Bytes → Bytes → Bool
at_least none key = true
at_least (some s) key = not (bytes_lt key s)

abbrev pub at_most : Option Bytes → Bytes → Bool
at_most none key = true
at_most (some e) key = not (bytes_lt e key)

abbrev pub in_range : Option Bytes → Option Bytes → Bytes → Bool
in_range start end' key = at_least start key && at_most end' key

-- The part of the list whose keys lie in the range.
abbrev kept : Option Bytes → Option Bytes → Entries Versions → Entries Versions
kept start end' m = retain (λ e. in_range start end' e.0) m

kept-all : (m : Entries Versions) → kept none none m ≡ m
kept-all [] = refl
kept-all ((k, vs) ∷ m) = ap (λ r. (k, vs) ∷ r) (kept-all m)

-- Beyond the end nothing is kept.
kept-above :
    (m : Entries Versions) (start : Option Bytes) (e k : Bytes)
    → bytes_lt e k ≡ true
    → All (IsAbove k) m
    → kept start (some e) m ≡ []
kept-above [] start e k h a = refl
kept-above ((j, vs) ∷ m) start e k h (p, a) =
    ground (arith, bytes_lt_trans e k j h p, kept-above m start e k h a)

until_end-kept :
    (m : Entries Versions) (e : Option Bytes) → IsSorted m → until_end e m ≡ kept none e m
unfolding until_end
until_end-kept m none h = sym (kept-all m)
until_end-kept [] (some e) h = refl
until_end-kept ((k, vs) ∷ m) (some e) (a, s) = elim (Bool-cases (bytes_lt e k)) [
  | inl beyond ↦ ground (arith, kept-above m none e k beyond a)
  | inr inside ↦ ground (arith, until_end-kept m (some e) s)
]

-- From the first key at or above the start on, every key is.
kept-start :
    (m : Entries Versions) (s k : Bytes) (e : Option Bytes)
    → bytes_lt k s ≡ false
    → All (IsAbove k) m
    → kept none e m ≡ kept (some s) e m
kept-start [] s k e h a = refl
kept-start ((j, vs) ∷ m) s k e h (p, a) =
    let not_below : bytes_lt j s ≡ false = elim (Bool-cases (bytes_lt j s)) [
      | inl below ↦ cc (bytes_lt_trans k j s p below)
      | inr above ↦ above
    ] in
    ground (arith, not_below, kept-start m s k e h a)

abbrev start_of : Option Bytes → Entries Versions → Entries Versions
start_of none m = m
start_of (some s) m = sorted_from s m

range-kept :
    (m : Entries Versions) (start end' : Option Bytes)
    → IsSorted m
    → until_end end' (start_of start m) ≡ kept start end' m
unfolding sorted_from
range-kept m none end' h = until_end-kept m end' h
range-kept [] (some s) none h = until_end-kept [] none tt
range-kept [] (some s) (some e) h = until_end-kept [] (some e) tt
range-kept ((k, vs) ∷ m) (some s) end' (a, h) = elim (Bool-cases (bytes_lt k s)) [
  | inl below ↦ rw below (range-kept m (some s) end' h ∙ ground (arith, below))
  | inr from ↦ rw from (
      until_end-kept ((k, vs) ∷ m) end' (a, h) ∙ ground (arith, from, kept-start m s k end' from a))
]

retain-append :
    (p : Bytes × MemTableEntry → Bool) (xs ys : List (Bytes × MemTableEntry))
    → retain p (xs ++ ys) ≡ retain p xs ++ retain p ys
retain-append p [] ys = refl
retain-append p (x ∷ xs) ys = ground (arith, retain-append p xs ys)

-- The rows of one key are kept together or dropped together.
retain-rows_of :
    (q : Bytes → Bool) (k : Bytes) (vs : Versions)
    → retain (λ r. q r.0) (rows_of k vs) ≡ (if q k then rows_of k vs else [])
retain-rows_of q k [] = ground arith
retain-rows_of q k (v ∷ vs) = ground (arith, retain-rows_of q k vs)

scan_map-retain :
    (q : Bytes → Bool) (m : Entries Versions)
    → scan_map (retain (λ e. q e.0) m) ≡ retain (λ r. q r.0) (scan_map m)
unfolding scan_map
scan_map-retain q [] = refl
scan_map-retain q ((k, vs) ∷ m) =
    rw (retain-append (λ r. q r.0) (rows_of k vs) (scan_map m), retain-rows_of q k vs)
      (ground (arith, scan_map-retain q m))

module _ {M : Type 0} ⦃lib : SkipMap Versions M⦄ where
  -- The keys are in ascending order, and `len` counts them.
  pub record WellFormed (t : MemTable M) : Type 0 where
    pub sorted : IsSorted (lib.iter t.inner)
    pub counted : t.len ≡ length (lib.iter t.inner)

  module _ (t : MemTable M) (key : Bytes) (vs : Versions) (bytes : ℕ) (wf : WellFormed t) where
    insert_absent :
        lib.get key t.inner ≡ none
        → WellFormed
            (record { inner = lib.insert key vs t.inner; approx_bytes = bytes; len = t.len + 1 })
    insert_absent e = record {
      sorted = rw lib.iter-insert (sorted_insert-IsSorted (lib.iter t.inner) key vs wf.sorted);
      counted = rw lib.iter-insert (
          ground (
            arith,
            e,
            lib.get-iter key t.inner,
            length-sorted_insert (lib.iter t.inner) key vs wf.sorted,
            wf.counted,
          ));
    }

    insert_present :
        (old : Versions)
        → lib.get key t.inner ≡ some old
        → WellFormed
            (record { inner = lib.insert key vs t.inner; approx_bytes = bytes; len = t.len })
    insert_present old e = record {
      sorted = rw lib.iter-insert (sorted_insert-IsSorted (lib.iter t.inner) key vs wf.sorted);
      counted = rw lib.iter-insert (
          ground (
            arith,
            e,
            lib.get-iter key t.inner,
            length-sorted_insert (lib.iter t.inner) key vs wf.sorted,
            wf.counted,
          ));
    }

  apply_value-WellFormed :
      (t : MemTable M) (key : Bytes) (seq : ℕ) (value : Option Bytes)
      → WellFormed t
      → WellFormed (apply_value t key seq value)
  unfolding apply_value put delete
  apply_value-WellFormed t key seq none wf = elim (Option-cases (lib.get key t.inner)) [
    | inl e ↦ rw e (insert_absent t key _ _ wf e)
    | inr (vs, e) ↦ rw e (insert_present t key _ _ wf vs e)
  ]
  apply_value-WellFormed t key seq (some v) wf = elim (Option-cases (lib.get key t.inner)) [
    | inl e ↦ rw e (insert_absent t key _ _ wf e)
    | inr (vs, e) ↦ rw e (insert_present t key _ _ wf vs e)
  ]

  -- A sequence of puts and deletes keeps the keys of a table in strictly ascending byte order, and its
  -- length counter the number of its keys.
  pub history-WellFormed :
      (ws : List Write) (t : MemTable M) → WellFormed t → WellFormed (apply_all t ws)
  unfolding apply_all apply
  history-WellFormed [] t wf = wf
  history-WellFormed (w ∷ ws) t wf =
      history-WellFormed ws (apply t w) (apply_value-WellFormed t w.key w.seq w.value wf)

  from_start-start_of :
      (start : Option Bytes) (m : M) → from_start start m ≡ start_of start (lib.iter m)
  unfolding from_start
  from_start-start_of none m = refl
  from_start-start_of (some s) m = lib.range_from-iter s m

  -- In a well-formed table a range scan returns the rows of a full scan whose keys lie in the range,
  -- both ends included, in the same order.
  pub scan_range-in_range :
      (t : MemTable M) (start end' : Option Bytes)
      → WellFormed t
      → scan_range t start end' ≡ retain (λ r. in_range start end' r.0) (scan t)
  unfolding scan_range scan
  scan_range-in_range t start end' wf =
      rw (from_start-start_of start t.inner, range-kept (lib.iter t.inner) start end' wf.sorted)
        (scan_map-retain (in_range start end') (lib.iter t.inner))
