-- ===== src/Gateway/Local/HashRows.antt =====
-- Rows of numbered documents, each number once, and their order by number.
use Prim.Native.String.{String}
use shanshui_cunji.Prelude.{
  ℕ, ◌≡◌, refl, ap, List, [], ◌∷◌, false, none, some, ◌==◌, ==_refl, Mem, arith, Bool-cases, inl,
  inr, lookup, insert, lookup-insert,
}

abbrev pub Rows : Type 0
Rows = List (ℕ × String)

abbrev pub Once : Rows → Type 0
Once [] = Unit
Once ((k, v) ∷ m) = (lookup k m ≡ none) × Once m

pub insert-Once : (key : ℕ) (v : String) (m : Rows) → Once m → Once (insert key v m)
unfolding insert
insert-Once key v [] o = (unfold lookup in refl, tt)
insert-Once key v ((k, w) ∷ m) (fresh, o) = elim (Bool-cases (k == key)) [
  | inl e ↦ let same : k ≡ key = ground arith in rw e (rw same at fresh, o)
  | inr e ↦
      let apart : (key == k) ≡ false = ground arith in
      let kept : lookup k (insert key v m) ≡ none = rw (lookup-insert key k v m, apart) fresh in
      rw e (kept, insert-Once key v m o)
]

absent : (k : ℕ) (v : String) (m : Rows) → lookup k m ≡ none → Mem (k, v) m → ⊥
unfolding lookup
absent k v [] e h = elim h [ ]
absent k v ((k', w) ∷ m) e (inl q) =
    let same : k' ≡ k = ap (λ (x : ℕ × String). x.0) q in ground (arith, ==_refl k)
absent k v ((k', w) ∷ m) e (inr h) = absent k v m (ground arith) h

pub Mem-lookup : (k : ℕ) (v : String) (m : Rows) → Once m → Mem (k, v) m → lookup k m ≡ some v
unfolding lookup
Mem-lookup k v [] o h = elim h [ ]
Mem-lookup k v ((k', w) ∷ m) (fresh, o) (inl q) =
    let same : k' ≡ k = ap (λ (x : ℕ × String). x.0) q in
    let value : w ≡ v = ap (λ (x : ℕ × String). x.1) q in rw (same, ==_refl k, value) refl
Mem-lookup k v ((k', w) ∷ m) (fresh, o) (inr h) = elim (Bool-cases (k' == k)) [
  | inl e ↦ let same : k' ≡ k = ground arith in absurd (absent k v m (rw same at fresh) h)
  | inr e ↦ rw e (Mem-lookup k v m o h)
]

pub lookup-Mem : (k : ℕ) (v : String) (m : Rows) → lookup k m ≡ some v → Mem (k, v) m
unfolding lookup
lookup-Mem k v [] e = cc
lookup-Mem k v ((k', w) ∷ m) e = elim (Bool-cases (k' == k)) [
  | inl q ↦
      let same : k' ≡ k = ground arith in
      let value : some w ≡ some v = rw q at e in
      let value' : w ≡ v = cc in inl (λ i. (same i, value' i))
  | inr q ↦ inr (lookup-Mem k v m (rw q at e))
]
