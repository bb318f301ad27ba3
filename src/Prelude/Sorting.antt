-- ===== src/Prelude/Sorting.antt =====
-- `sort_by_key` on rows with a number in front: an insertion sort, which keeps the order of equal keys.
use mathlib.Core.Logic.{◌↔◌, inl, inr}
use mathlib.Core.List.{List, [], ◌∷◌}
use Prim.Native.Nat.{ℕ}
use shanshui_cunji.Prelude.Tests.{ltb, if◌then◌else◌, Bool-cases}
use shanshui_cunji.Prelude.Lists.{Mem}

module _ {A : Type 0} where
  unfoldable pub insert_row : ℕ × A → List (ℕ × A) → List (ℕ × A)
  insert_row p [] = p ∷ []
  insert_row p (q ∷ ring) =
      let rest = insert_row p ring in if ltb q.0 p.0 then q ∷ rest else p ∷ (q ∷ ring)

  unfoldable pub sort_by_key : List (ℕ × A) → List (ℕ × A)
  unfolding insert_row
  sort_by_key [] = []
  sort_by_key (p ∷ points) = insert_row p (sort_by_key points)

  -- Two lists with the same members stay so behind a first one, and the first two may be swapped.
  Mem-cons :
      (q r : ℕ × A) (xs ys : List (ℕ × A)) → Mem r xs ↔ Mem r ys → Mem r (q ∷ xs) ↔ Mem r (q ∷ ys)
  Mem-cons q r xs ys (f, g) = (
    λ h. elim h [ inl e ↦ inl e | inr m ↦ inr (f m) ],
    λ h. elim h [ inl e ↦ inl e | inr m ↦ inr (g m) ],
  )

  Mem_swap : (p q r : ℕ × A) (xs : List (ℕ × A)) → Mem r (q ∷ (p ∷ xs)) → Mem r (p ∷ (q ∷ xs))
  Mem_swap p q r xs (inl e) = inr (inl e)
  Mem_swap p q r xs (inr (inl e)) = inl e
  Mem_swap p q r xs (inr (inr m)) = inr (inr m)

  insert_row-Mem :
      (p : ℕ × A) (ring : List (ℕ × A)) (r : ℕ × A) → Mem r (insert_row p ring) ↔ Mem r (p ∷ ring)
  unfolding insert_row
  insert_row-Mem p [] r = (λ h. h, λ h. h)
  insert_row-Mem p (q ∷ ring) r = elim (Bool-cases (ltb q.0 p.0)) [
    | inl e ↦
        let (f, g) = Mem-cons q r (insert_row p ring) (p ∷ ring) (insert_row-Mem p ring r) in
        rw e (λ h. Mem_swap p q r ring (f h), λ h. g (Mem_swap q p r ring h))
    | inr e ↦ rw e (λ h. h, λ h. h)
  ]

  pub sort_by_key-Mem :
      (points : List (ℕ × A)) (r : ℕ × A) → Mem r (sort_by_key points) ↔ Mem r points
  unfolding sort_by_key
  sort_by_key-Mem [] r = (λ h. h, λ h. h)
  sort_by_key-Mem (p ∷ points) r =
      let (f, g) = insert_row-Mem p (sort_by_key points) r in
      let (f', g') = Mem-cons p r (sort_by_key points) points (sort_by_key-Mem points r) in
      (λ h. f' (f h), λ h. g (g' h))
