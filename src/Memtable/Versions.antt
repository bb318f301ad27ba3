-- ===== src/Memtable/Versions.antt =====
-- Reads of a table against the history of its writes.
use shanshui_cunji.Prelude.{
  ℕ, ◌<◌, ◌≡◌, refl, sym, ap, ◌∙◌, ◌&&◌, Option, none, some, List, [], ◌∷◌, ◌++◌, arith, leb,
  if◌then◌else◌, All, Bool-cases, Option-cases, inl, inr, or_else,
}
use shanshui_cunji.Bytes.{Bytes, bytes_eq}
use shanshui_cunji.Bytes.Total.{bytes_eq→eq}
use shanshui_cunji.Memtable.{
  MemTableEntry, Versions, MemTable, new_table, put, delete, last, last_at, of_versions, get,
  get_at,
}
use shanshui_cunji.SkipList.{SkipMap, sorted_get}
use shanshui_cunji.SkipList.Sorted.{sorted_get-insert}

-- One write as the write path hands it over; `value = none` is a delete.
pub record Write : Type 0 where
  pub key : Bytes
  pub seq : ℕ
  pub value : Option Bytes

abbrev pub entry : Write → MemTableEntry
entry w = record { seq = w.seq; value = w.value }

-- The last write of a key at or below a sequence number, in a history.
unfoldable pub last_write_at : Bytes → ℕ → List Write → Option MemTableEntry
last_write_at key snapshot_seq [] = none
last_write_at key snapshot_seq (w ∷ ws) =
    or_else (last_write_at key snapshot_seq ws)
      (if bytes_eq w.key key && leb w.seq snapshot_seq then some (entry w) else none)

unfoldable pub last_write : Bytes → List Write → Option MemTableEntry
last_write key [] = none
last_write key (w ∷ ws) =
    or_else (last_write key ws) (if bytes_eq w.key key then some (entry w) else none)

last-append : (vs : Versions) (v : MemTableEntry) → last (vs ++ (v ∷ [])) ≡ some v
unfolding last
last-append [] v = refl
last-append (x ∷ []) v = refl
last-append (x ∷ y ∷ vs) v = last-append (y ∷ vs) v

last_at-append :
    (s : ℕ) (vs : Versions) (v : MemTableEntry)
    → last_at s (vs ++ (v ∷ [])) ≡ (if leb v.seq s then some v else last_at s vs)
unfolding last_at
last_at-append s [] v = ground arith
last_at-append s (x ∷ vs) v = ground (arith, last_at-append s vs v)

abbrev chain : Option Versions → Versions
chain none = []
chain (some vs) = vs

of_versions-chain :
    (f : Versions → Option MemTableEntry)
    → f [] ≡ none
    → (o : Option Versions) → of_versions f o ≡ f (chain o)
of_versions-chain f e none = sym e
of_versions-chain f e (some vs) = refl

or_else-none : (o : Option MemTableEntry) → or_else o none ≡ o
or_else-none none = refl
or_else-none (some e) = refl

get-empty : {M : Type 0} (lib : SkipMap Versions M) (key : Bytes) → lib.get key lib.empty ≡ none
unfolding sorted_get
get-empty lib key = rw (lib.get-iter, lib.iter-empty) refl

module _ {M : Type 0} ⦃lib : SkipMap Versions M⦄ where
  -- What is read back after an insertion.
  pub get-insert :
      (m : M) (key j : Bytes) (vs : Versions)
      → lib.get j (lib.insert key vs m) ≡ (if bytes_eq key j then some vs else lib.get j m)
  get-insert m key j vs =
      rw (lib.get-iter, lib.iter-insert, lib.get-iter) (sorted_get-insert (lib.iter m) key j vs)

  unfoldable pub apply_value : MemTable M → Bytes → ℕ → Option Bytes → MemTable M
  apply_value t key seq none = delete t key seq
  apply_value t key seq (some v) = put t key seq v

  unfoldable pub apply : MemTable M → Write → MemTable M
  unfolding apply_value
  apply t w = apply_value t w.key w.seq w.value

  unfoldable pub apply_all : MemTable M → List Write → MemTable M
  apply_all t [] = t
  apply_all t (w ∷ ws) = apply_all (apply t w) ws

  -- A write appends a version to the chain of its key.
  inner-apply_value :
      (t : MemTable M) (key j : Bytes) (seq : ℕ) (value : Option Bytes)
      → lib.get j (apply_value t key seq value).inner ≡ (
          if bytes_eq key j
          then some (chain (lib.get key t.inner) ++ (record { seq = seq; value = value } ∷ []))
          else lib.get j t.inner)
  unfolding apply_value put delete
  inner-apply_value t key j seq none = elim (Option-cases (lib.get key t.inner)) [
    | inl e ↦ rw e (get-insert t.inner key j _)
    | inr (vs, e) ↦ rw e (get-insert t.inner key j _)
  ]
  inner-apply_value t key j seq (some v) = elim (Option-cases (lib.get key t.inner)) [
    | inl e ↦ rw e (get-insert t.inner key j _)
    | inr (vs, e) ↦ rw e (get-insert t.inner key j _)
  ]

  -- One write, read by `last` or by `last_at`.
  module _ (t : MemTable M) (w : Write) (key : Bytes) where
    pub get-apply : get (apply t w) key ≡ (if bytes_eq w.key key then some (entry w) else get t key)
    unfolding get apply
    get-apply =
        let vs = chain (lib.get w.key t.inner) in
        rw (inner-apply_value t w.key key w.seq w.value) (elim (Bool-cases (bytes_eq w.key key)) [
          | inl same ↦ rw same (last-append vs (entry w))
          | inr other ↦ rw other
        ])

    pub get_at-apply :
        (s : ℕ)
        → get_at (apply t w) key s
          ≡ (if bytes_eq w.key key && leb w.seq s then some (entry w) else get_at t key s)
    unfolding get_at apply
    get_at-apply s =
        let vs = chain (lib.get w.key t.inner) in
        rw (inner-apply_value t w.key key w.seq w.value) (elim (Bool-cases (bytes_eq w.key key)) [
          | inl same ↦
              let p : w.key ≡ key = bytes_eq→eq w.key key same in
              rw (same, ← p)
                (last_at-append s vs (entry w)
                  ∙ ap (λ o. if leb w.seq s then some (entry w) else o)
                      (sym (
                        of_versions-chain (last_at s) (unfold last_at in refl)
                          (lib.get w.key t.inner))))
          | inr other ↦ rw other
        ])

  pub get_at-apply_all :
      (ws : List Write) (t : MemTable M) (key : Bytes) (s : ℕ)
      → get_at (apply_all t ws) key s ≡ or_else (last_write_at key s ws) (get_at t key s)
  unfolding apply_all last_write_at
  get_at-apply_all [] t key s = refl
  get_at-apply_all (w ∷ ws) t key s =
      ground (arith, get_at-apply_all ws (apply t w) key s, get_at-apply t w key s)

  pub get-apply_all :
      (ws : List Write) (t : MemTable M) (key : Bytes)
      → get (apply_all t ws) key ≡ or_else (last_write key ws) (get t key)
  unfolding apply_all last_write
  get-apply_all [] t key = refl
  get-apply_all (w ∷ ws) t key = ground (arith, get-apply_all ws (apply t w) key, get-apply t w key)

  -- A snapshot read does not change while later sequence numbers are written.
  pub snapshot_stable :
      (ws : List Write) (t : MemTable M) (key : Bytes) (snapshot_seq : ℕ)
      → All (λ w. snapshot_seq < w.seq) ws
      → get_at (apply_all t ws) key snapshot_seq ≡ get_at t key snapshot_seq
  unfolding apply_all
  snapshot_stable [] t key s h = refl
  snapshot_stable (w ∷ ws) t key s h =
      ground (arith, snapshot_stable ws (apply t w) key s, get_at-apply t w key s)

module _ (M : Type 0) ⦃lib : SkipMap Versions M⦄ where
  -- A table that was built by a history of puts and deletes answers a read with the last write of the
  -- key in the history, and a snapshot read with the last one at or below the snapshot.
  pub reads_of_history :
      (ws : List Write) (key : Bytes) (snapshot_seq : ℕ)
      → (get (apply_all (new_table {M = M}) ws) key ≡ last_write key ws)
        × (get_at (apply_all (new_table {M = M}) ws) key snapshot_seq
            ≡ last_write_at key snapshot_seq ws)
  unfolding new_table get get_at
  reads_of_history ws key s =
      let start : lib.get key lib.empty ≡ none = get-empty lib key in
      (
        get-apply_all ws (new_table {M = M}) key ∙ rw start (or_else-none (last_write key ws)),
        get_at-apply_all ws (new_table {M = M}) key s
            ∙ rw start (or_else-none (last_write_at key s ws)),
      )
