-- ===== src/Wal/Ring/Write.antt =====
-- A write into the middle of a file.
use shanshui_cunji.Prelude.{
  ℕ, zero, suc, ◌+◌, ◌-◌, ◌≤◌, ◌<◌, ◌≡◌, refl, sym, ap, ◌∙◌, List, [], ◌∷◌, ◌++◌, arith,
  append_assoc, append-nil, length, length-append, take-append, drop-append, get_elem?,
  get_elem?-append, inl, inr, ◌⊎◌,
}
use shanshui_cunji.Bytes.{Bytes}
use shanshui_cunji.Wal.Ring.{write_at}

pub get_elem?_past :
    {A : Type 0} (xs ys : List A) (i : ℕ)
    → length xs ≤ i
    → get_elem? (xs ++ ys) i ≡ get_elem? ys (i - length xs)
get_elem?_past [] ys i h = let z : i - 0 ≡ i = omega arith in rw z refl
get_elem?_past (x ∷ xs) ys zero h = absurd (omega arith)
get_elem?_past (x ∷ xs) ys (suc i) h =
    let z : suc i - suc (length xs) ≡ i - length xs = omega arith in
    rw z (get_elem?_past xs ys i (omega arith))

-- A list in two parts, the first one of a given length.
pub parts :
    {A : Type 0} (n : ℕ) (xs : List A)
    → n ≤ length xs
    → (a b : List A) × (xs ≡ a ++ b) × (length a ≡ n)
parts zero xs h = ([], xs, refl, refl)
parts (suc n) [] h = absurd (omega arith)
parts (suc n) (x ∷ xs) h =
    let (a, b, e, l) = parts n xs (omega arith) in (x ∷ a, b, ap (λ ys. x ∷ ys) e, ap suc l)

pub write_at_middle :
    (a b c data' : Bytes) (off : ℕ)
    → off ≡ length a
    → length data' ≡ length b
    → write_at (a ++ (b ++ c)) off data' ≡ a ++ (data' ++ c)
unfolding write_at
write_at_middle a b c data' off ho hb =
    let whole = length-append a (b ++ c) in
    let full : off - length (a ++ (b ++ c)) ≡ 0 = omega arith in
    let skip : off + length data' ≡ length (a ++ b) = rw (ho, hb, length-append) refl in
    rw
      (
        full,
        append-nil,
        skip,
        ← append_assoc a b c,
        drop-append (a ++ b) c,
        append_assoc a b c,
        ho,
        take-append a (b ++ c),
      )
      refl

module _ (file data' : Bytes) (off : ℕ) (h : off + length data' ≤ length file) where
  -- What is before the written part, what it replaces, and what is behind it.
  pub write_at_parts :
      (a b c : Bytes) × (file ≡ a ++ (b ++ c))
      × (length a ≡ off)
      × (length b ≡ length data')
      × (write_at file off data' ≡ a ++ (data' ++ c))
  write_at_parts =
      let (a, x, e, l) = parts off file (omega arith) in
      let (b, c, f, k) = parts (length data') x (omega (arith, ap length e, length-append a x)) in
      (
        a,
        b,
        c,
        e ∙ ap (λ y. a ++ y) f,
        l,
        k,
        rw (e, f) (write_at_middle a b c data' off (sym l) (sym k)),
      )

  pub length-write_at : length (write_at file off data') ≡ length file
  length-write_at =
      let (a, b, c, e, l, k, w) = write_at_parts in
      omega (
        arith,
        ap length w,
        ap length e,
        length-append a (data' ++ c),
        length-append a (b ++ c),
        length-append data' c,
        length-append b c,
      )

  pub get_elem?-write_at :
      (i : ℕ)
      → (i < off) ⊎ (off + length data' ≤ i)
      → get_elem? (write_at file off data') i ≡ get_elem? file i
  get_elem?-write_at i (inl k) =
      let (a, b, c, e, l, _, w) = write_at_parts in
      rw
        (
          w,
          e,
          get_elem?-append a (data' ++ c) i (omega arith),
          get_elem?-append a (b ++ c) i (omega arith),
        )
        refl
  get_elem?-write_at i (inr k) =
      let (a, b, c, e, l, m, w) = write_at_parts in
      rw
        (
          w,
          e,
          get_elem?_past a (data' ++ c) i (omega arith),
          get_elem?_past a (b ++ c) i (omega arith),
          get_elem?_past data' c (i - length a) (omega arith),
          get_elem?_past b c (i - length a) (omega arith),
          m,
        )
        refl
