-- ===== src/SkipList/Sorted.antt =====
-- Lists of entries in ascending order of their keys.
use shanshui_cunji.Prelude.{
  ◌+◌, ◌≡◌, refl, true, none, some, [], ◌∷◌, arith, if◌then◌else◌, length, All, All-map, Bool-cases,
  inl, inr, is_some,
}
use shanshui_cunji.Bytes.{Bytes, bytes_lt, bytes_eq}
use shanshui_cunji.Bytes.Total.{
  bytes_eq→eq, bytes_eq_refl, bytes_lt_irrefl, bytes_lt_trans, bytes_total,
}
use shanshui_cunji.SkipList.{Entries, sorted_get, sorted_insert}

module _ {ℓ} {V : Type ℓ} where
  pub sorted_get-insert :
      (m : Entries V) (key j : Bytes) (vs : V)
      → sorted_get j (sorted_insert key vs m) ≡ (if bytes_eq key j then some vs else sorted_get j m)
  unfolding sorted_get sorted_insert
  sorted_get-insert [] key j vs = refl
  sorted_get-insert ((k, ws) ∷ m) key j vs = ground (
    arith,
    sorted_get-insert m key j vs,
    bytes_total key k,
    bytes_eq→eq key k,
    bytes_eq→eq key j,
    bytes_eq→eq k j,
    bytes_lt_irrefl k,
  )

  abbrev pub IsAbove : Bytes → Bytes × V → Type 0
  IsAbove k e = bytes_lt k e.0 ≡ true

  abbrev pub IsSorted : Entries V → Type 0
  IsSorted [] = Unit
  IsSorted ((k, vs) ∷ m) = All (IsAbove k) m × IsSorted m

  sorted_insert-All :
      (m : Entries V) (low key : Bytes) (vs : V)
      → bytes_lt low key ≡ true
      → All (IsAbove low) m
      → All (IsAbove low) (sorted_insert key vs m)
  unfolding sorted_insert
  sorted_insert-All [] low key vs h a = (h, tt)
  sorted_insert-All ((k, ws) ∷ m) low key vs h (a, as') = elim (Bool-cases (bytes_lt key k)) [
    | inl below ↦ rw below (h, (a, as'))
    | inr not_below ↦ elim (Bool-cases (bytes_lt k key)) [
      | inl above ↦ rw (not_below, above) (a, sorted_insert-All m low key vs h as')
      | inr same ↦ rw (not_below, same) (h, as')
    ]
  ]

  pub sorted_insert-IsSorted :
      (m : Entries V) (key : Bytes) (vs : V) → IsSorted m → IsSorted (sorted_insert key vs m)
  unfolding sorted_insert
  sorted_insert-IsSorted [] key vs h = (tt, tt)
  sorted_insert-IsSorted ((k, ws) ∷ m) key vs (a, s) = elim (Bool-cases (bytes_lt key k)) [
    | inl below ↦ rw below ((below, All-map m (λ e p. bytes_lt_trans key k e.0 below p) a), (a, s))
    | inr not_below ↦ elim (Bool-cases (bytes_lt k key)) [
      | inl above ↦
          rw (not_below, above)
            (sorted_insert-All m k key vs above a, sorted_insert-IsSorted m key vs s)
      | inr same ↦
          let p : key ≡ k = bytes_eq→eq key k (bytes_total key k not_below same) in
          rw (not_below, same) (rw p (a, s))
    ]
  ]

  -- A key below every key of the list is not in it.
  sorted_get-below : (m : Entries V) (key : Bytes) → All (IsAbove key) m → sorted_get key m ≡ none
  unfolding sorted_get
  sorted_get-below [] key a = refl
  sorted_get-below ((k, ws) ∷ m) key (p, a) =
      ground (arith, sorted_get-below m key a, bytes_eq→eq k key, bytes_lt_irrefl key)

  pub length-sorted_insert :
      (m : Entries V) (key : Bytes) (vs : V)
      → IsSorted m
      → length (sorted_insert key vs m) ≡ length m + (if is_some (sorted_get key m) then 0 else 1)
  unfolding sorted_insert sorted_get
  length-sorted_insert [] key vs h = omega arith
  length-sorted_insert ((k, ws) ∷ m) key vs (a, s) = elim (Bool-cases (bytes_lt key k)) [
    | inl below ↦
        let absent : sorted_get key m ≡ none =
          sorted_get-below m key (All-map m (λ e p. bytes_lt_trans key k e.0 below p) a) in
        ground (arith, absent, below, bytes_eq→eq k key, bytes_lt_irrefl key)
    | inr not_below ↦ ground (
      arith,
      not_below,
      length-sorted_insert m key vs s,
      bytes_total key k,
      bytes_eq→eq key k,
      bytes_eq→eq k key,
      bytes_lt_irrefl key,
      bytes_eq_refl key,
    )
  ]
