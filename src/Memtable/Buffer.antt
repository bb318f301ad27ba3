-- ===== src/Memtable/Buffer.antt =====
-- The double buffer against one history of writes, before and after a switch.
use shanshui_cunji.Prelude.{
  ℕ, ◌≤◌, ◌<◌, ◌≡◌, refl, Option, none, some, List, [], ◌∷◌, ◌++◌, arith, All, or_else,
}
use shanshui_cunji.Bytes.{Bytes}
use shanshui_cunji.SkipList.{SkipMap}
use shanshui_cunji.Memtable.{
  Versions, MemTableEntry, MemTable, new_table, newer, MemTableBuffer, new_buffer, buffer_put,
  buffer_delete, buffer_get, buffer_get_at, switch,
}
use shanshui_cunji.Memtable.Versions.{
  Write, apply_value, apply, apply_all, last_write, last_write_at, reads_of_history,
}

last_write-append :
    (key : Bytes) (xs ys : List Write)
    → last_write key (xs ++ ys) ≡ or_else (last_write key ys) (last_write key xs)
unfolding last_write
last_write-append key [] ys = ground arith
last_write-append key (x ∷ xs) ys = ground (arith, last_write-append key xs ys)

last_write_at-append :
    (key : Bytes) (s : ℕ) (xs ys : List Write)
    → last_write_at key s (xs ++ ys) ≡ or_else (last_write_at key s ys) (last_write_at key s xs)
unfolding last_write_at
last_write_at-append key s [] ys = ground arith
last_write_at-append key s (x ∷ xs) ys = ground (arith, last_write_at-append key s xs ys)

-- A found write has a sequence number of the history.
found_below :
    (key : Bytes) (s cut : ℕ) (ws : List Write) (e : MemTableEntry)
    → All (λ w. w.seq ≤ cut) ws
    → last_write_at key s ws ≡ some e
    → e.seq ≤ cut
unfolding last_write_at
found_below key s cut [] e h q = cc
found_below key s cut (w ∷ ws) e h q = ground (arith, found_below key s cut ws e h.1)

found_above :
    (key : Bytes) (s cut : ℕ) (ws : List Write) (e : MemTableEntry)
    → All (λ w. cut < w.seq) ws
    → last_write_at key s ws ≡ some e
    → cut < e.seq
unfolding last_write_at
found_above key s cut [] e h q = cc
found_above key s cut (w ∷ ws) e h q = ground (arith, found_above key s cut ws e h.1)

newer-or_else :
    (cut : ℕ) (recent older : Option MemTableEntry)
    → ((e : MemTableEntry) → recent ≡ some e → cut < e.seq)
    → ((e : MemTableEntry) → older ≡ some e → e.seq ≤ cut)
    → newer recent older ≡ or_else recent older
unfolding newer
newer-or_else cut none none h k = refl
newer-or_else cut none (some e) h k = refl
newer-or_else cut (some b) none h k = refl
newer-or_else cut (some b) (some e) h k = ground (arith, h b refl, k e refl)

module _ {M : Type 0} ⦃lib : SkipMap Versions M⦄ where
  unfoldable pub buffer_apply_value : MemTableBuffer M → Bytes → ℕ → Option Bytes → MemTableBuffer M
  buffer_apply_value b key seq none = buffer_delete b key seq
  buffer_apply_value b key seq (some v) = buffer_put b key seq v

  unfoldable pub buffer_apply_all : MemTableBuffer M → List Write → MemTableBuffer M
  unfolding buffer_apply_value
  buffer_apply_all b [] = b
  buffer_apply_all b (w ∷ ws) = buffer_apply_all (buffer_apply_value b w.key w.seq w.value) ws

  buffer_apply_value_lem :
      (m : MemTable M) (i : Option (MemTable M)) (key : Bytes) (seq : ℕ) (value : Option Bytes)
      → buffer_apply_value (record { mutable = m; immutable = i }) key seq value
        ≡ record { mutable = apply_value m key seq value; immutable = i }
  unfolding buffer_apply_value buffer_put buffer_delete apply_value
  buffer_apply_value_lem m i key seq none = refl
  buffer_apply_value_lem m i key seq (some v) = refl

  -- Writes go to the mutable table alone.
  buffer_apply_all_lem :
      (ws : List Write) (m : MemTable M) (i : Option (MemTable M))
      → buffer_apply_all (record { mutable = m; immutable = i }) ws
        ≡ record { mutable = apply_all m ws; immutable = i }
  unfolding buffer_apply_all apply_all apply
  buffer_apply_all_lem [] m i = refl
  buffer_apply_all_lem (w ∷ ws) m i =
      rw (buffer_apply_value_lem m i w.key w.seq w.value)
        (buffer_apply_all_lem ws (apply_value m w.key w.seq w.value) i)

  -- The two tables after writing `older`, switching, and writing `recent`.
  abbrev pub two_rounds : List Write → List Write → MemTableBuffer M
  two_rounds older recent = buffer_apply_all (switch (buffer_apply_all new_buffer older)) recent

  two_rounds_lem :
      (older recent : List Write)
      → two_rounds older recent ≡ record {
        mutable = apply_all new_table recent;
        immutable = some (apply_all new_table older);
      }
  unfolding new_buffer switch
  two_rounds_lem older recent =
      rw (buffer_apply_all_lem older new_table none)
        (buffer_apply_all_lem recent new_table (some (apply_all new_table older)))

module _ (M : Type 0) ⦃lib : SkipMap Versions M⦄ where
  -- A switch in the middle of a history of writes is invisible to readers: with every sequence number
  -- before the switch below those behind it, the buffer answers a read and a snapshot read as the
  -- whole history does.
  pub switch_invisible :
      (older recent : List Write) (cut snapshot_seq : ℕ) (key : Bytes)
      → All (λ w. w.seq ≤ cut) older
      → All (λ w. cut < w.seq) recent
      → (buffer_get (two_rounds {M = M} older recent) key ≡ last_write key (older ++ recent))
        × (buffer_get_at (two_rounds {M = M} older recent) key snapshot_seq
            ≡ last_write_at key snapshot_seq (older ++ recent))
  unfolding buffer_get buffer_get_at
  switch_invisible older recent cut s key ho hr =
      let ro = reads_of_history M older key s in
      let rr = reads_of_history M recent key s in
      rw
        (
          two_rounds_lem older recent,
          last_write-append,
          last_write_at-append,
          ro.0,
          ro.1,
          rr.0,
          rr.1,
        )
        (
          refl,
          newer-or_else cut (last_write_at key s recent) (last_write_at key s older)
              (λ e q. found_above key s cut recent e hr q)
              (λ e q. found_below key s cut older e ho q),
        )
