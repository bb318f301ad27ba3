-- ===== src/Prelude/Lists.antt =====
-- Lists measured, indexed and cut by native numbers, under the library's names.
use Prim.Native.Nat.{ℕ, zero, suc, ◌+◌, ◌-◌, ◌<◌}
use mathlib.Core.Path.{◌≡◌, refl, ap}
use mathlib.Core.Logic.{◌≢◌, ◌⊎◌, inl, inr}
use mathlib.Core.Option
use mathlib.Core.Bool.{Bool, true, false, ◌||◌}
use mathlib.Core.List.{List, [], ◌∷◌, ◌++◌, map}
use mathlib.Core.Option.{Option, none, some}
use native.Mathlib.Omega.{arith}
use shanshui_cunji.Prelude.Tests.{◌==◌, if◌then◌else◌, Bool-cases}

module _ {ℓ} {A : Type ℓ} where
  abbrev pub length : List A → ℕ
  length [] = 0
  length (x ∷ xs) = suc (length xs)

  abbrev pub get_elem? : List A → ℕ → Option A
  get_elem? [] i = none
  get_elem? (x ∷ xs) zero = some x
  get_elem? (x ∷ xs) (suc i) = get_elem? xs i

  -- A write out of bounds changes nothing.
  abbrev pub set : List A → ℕ → A → List A
  set [] i v = []
  set (x ∷ xs) zero v = v ∷ xs
  set (x ∷ xs) (suc i) v = x ∷ set xs i v

  abbrev pub take : ℕ → List A → List A
  take zero xs = []
  take (suc n) [] = []
  take (suc n) (x ∷ xs) = x ∷ take n xs

  abbrev pub drop : ℕ → List A → List A
  drop zero xs = xs
  drop (suc n) [] = []
  drop (suc n) (x ∷ xs) = drop n xs

  abbrev pub replicate : ℕ → A → List A
  replicate zero a = []
  replicate (suc n) a = a ∷ replicate n a

  -- `buf[a..b]`, whose bounds the caller has checked.
  abbrev pub slice : List A → ℕ → ℕ → List A
  slice buf a b = take (b - a) (drop a buf)

  abbrev pub retain : (A → Bool) → List A → List A
  retain p [] = []
  retain p (x ∷ xs) = let rest = retain p xs in if p x then x ∷ rest else rest

  abbrev pub find : (A → Bool) → List A → Option A
  find p [] = none
  find p (x ∷ xs) = let rest = find p xs in if p x then some x else rest

  abbrev pub any : (A → Bool) → List A → Bool
  any p [] = false
  any p (x ∷ xs) = p x || any p xs

  abbrev pub All {κ} : (A → Type κ) → List A → Type κ
  All P [] = Unit {κ}
  All P (x ∷ xs) = P x × All P xs

  pub length-append : (xs ys : List A) → length (xs ++ ys) ≡ length xs + length ys
  length-append [] ys = omega arith
  length-append (x ∷ xs) ys = omega (arith, length-append xs ys)

  pub drop-append : (xs ys : List A) → drop (length xs) (xs ++ ys) ≡ ys
  drop-append [] ys = refl
  drop-append (x ∷ xs) ys = drop-append xs ys

  pub take-append : (xs ys : List A) → take (length xs) (xs ++ ys) ≡ xs
  take-append [] ys = refl
  take-append (x ∷ xs) ys = λ i. x ∷ take-append xs ys i

abbrev pub contains : List ℕ → ℕ → Bool
contains xs a = any (λ x. x == a) xs

module _ {ℓ} {A : Type ℓ} where
  -- A slice whose bounds are those of a middle part is that part.
  pub slice_middle :
      (pre mid rest : List A) (a b : ℕ)
      → a ≡ length pre
      → b ≡ a + length mid
      → slice (pre ++ (mid ++ rest)) a b ≡ mid
  slice_middle pre mid rest a b ha hb =
      let n : b - a ≡ length mid = omega arith in
      rw (n, ha, drop-append pre (mid ++ rest)) (take-append mid rest)

module _ {ℓ} {A : Type ℓ} where
  -- No element occurs twice.
  abbrev pub Distinct : List A → Type ℓ
  Distinct [] = Unit {ℓ}
  Distinct (x ∷ xs) = All (λ y. x ≢ y) xs × Distinct xs

  pub length-set : (xs : List A) (i : ℕ) (v : A) → length (set xs i v) ≡ length xs
  length-set [] i v = refl
  length-set (x ∷ xs) zero v = refl
  length-set (x ∷ xs) (suc i) v = ap suc (length-set xs i v)

  -- A write in range, read at any place.
  pub get_elem?-set :
      (xs : List A) (i j : ℕ) (v : A)
      → get_elem? (set xs i v) j
        ≡ (if i == j then Option.map (λ _. v) (get_elem? xs j) else get_elem? xs j)
  get_elem?-set [] i j v = ground arith
  get_elem?-set (x ∷ xs) zero zero v = refl
  get_elem?-set (x ∷ xs) zero (suc j) v = ground arith
  get_elem?-set (x ∷ xs) (suc i) zero v = ground arith
  get_elem?-set (x ∷ xs) (suc i) (suc j) v = ground (arith, get_elem?-set xs i j v)

  pub get_elem?-append :
      (xs ys : List A) (i : ℕ) → i < length xs → get_elem? (xs ++ ys) i ≡ get_elem? xs i
  get_elem?-append [] ys i h = absurd (omega arith)
  get_elem?-append (x ∷ xs) ys zero h = refl
  get_elem?-append (x ∷ xs) ys (suc i) h = get_elem?-append xs ys i (omega arith)

  pub get_elem?-some : (xs : List A) (i : ℕ) → i < length xs → (x : A) × (get_elem? xs i ≡ some x)
  get_elem?-some [] i h = absurd (omega arith)
  get_elem?-some (x ∷ xs) zero h = (x, refl)
  get_elem?-some (x ∷ xs) (suc i) h = get_elem?-some xs i (omega arith)

  pub get_elem?-lt : (xs : List A) (i : ℕ) {x : A} → get_elem? xs i ≡ some x → i < length xs
  get_elem?-lt [] i e = cc
  get_elem?-lt (y ∷ ys) zero e = omega arith
  get_elem?-lt (y ∷ ys) (suc i) e = omega (arith, get_elem?-lt ys i e)

  pub All-map {κ λ'} :
      {P : A → Type κ} {Q : A → Type λ'} (xs : List A) → ((x : A) → P x → Q x) → All P xs → All Q xs
  All-map [] f h = tt
  All-map (x ∷ xs) f h = (f x h.0, All-map xs f h.1)

pub length-replicate {ℓ} : {A : Type ℓ} (n : ℕ) (x : A) → length (replicate n x) ≡ n
length-replicate zero x = refl
length-replicate (suc n) x = ap suc (length-replicate n x)

module _ {A : Type 0} where
  abbrev pub Mem : A → List A → Type 0
  Mem a [] = ⊥
  Mem a (x ∷ xs) = (x ≡ a) ⊎ Mem a xs

  pub Mem-append_left : (a : A) (xs ys : List A) → Mem a xs → Mem a (xs ++ ys)
  Mem-append_left a [] ys h = elim h [ ]
  Mem-append_left a (x ∷ xs) ys (inl e) = inl e
  Mem-append_left a (x ∷ xs) ys (inr h) = inr (Mem-append_left a xs ys h)

  pub Mem-append_right : (a : A) (xs ys : List A) → Mem a ys → Mem a (xs ++ ys)
  Mem-append_right a [] ys h = h
  Mem-append_right a (x ∷ xs) ys h = inr (Mem-append_right a xs ys h)

  pub Mem-append : (a : A) (xs ys : List A) → Mem a (xs ++ ys) → Mem a xs ⊎ Mem a ys
  Mem-append a [] ys h = inr h
  Mem-append a (x ∷ xs) ys (inl e) = inl (inl e)
  Mem-append a (x ∷ xs) ys (inr h) = elim (Mem-append a xs ys h) [
    | inl l ↦ inl (inr l)
    | inr r ↦ inr r
  ]

  pub Mem-get_elem? : (xs : List A) (i : ℕ) {a : A} → get_elem? xs i ≡ some a → Mem a xs
  Mem-get_elem? [] i e = cc
  Mem-get_elem? (x ∷ xs) zero e = inl cc
  Mem-get_elem? (x ∷ xs) (suc i) e = inr (Mem-get_elem? xs i e)

  pub Mem-index :
      (a : A) (xs : List A) → Mem a xs → (i : ℕ) × (get_elem? xs i ≡ some a) × (i < length xs)
  Mem-index a [] h = elim h [ ]
  Mem-index a (x ∷ xs) (inl e) = (0, ap some e, omega arith)
  Mem-index a (x ∷ xs) (inr h) = let (i, e, l) = Mem-index a xs h in (suc i, e, omega arith)

module _ {A B : Type 0} (f : A → B) where
  pub get_elem?-map :
      (xs : List A) (i : ℕ) {b : B}
      → get_elem? (map f xs) i ≡ some b
      → (a : A) × (get_elem? xs i ≡ some a) × (f a ≡ b)
  unfolding map
  get_elem?-map [] i e = cc
  get_elem?-map (x ∷ xs) zero e = (x, refl, cc)
  get_elem?-map (x ∷ xs) (suc i) e = get_elem?-map xs i e

  pub length-map : (xs : List A) → length (map f xs) ≡ length xs
  unfolding map
  length-map [] = refl
  length-map (x ∷ xs) = ap suc (length-map xs)

  pub Mem-map : (a : A) (xs : List A) → Mem a xs → Mem (f a) (map f xs)
  unfolding map
  Mem-map a [] h = elim h [ ]
  Mem-map a (x ∷ xs) (inl e) = inl (ap f e)
  Mem-map a (x ∷ xs) (inr h) = inr (Mem-map a xs h)

  pub map-Mem : (b : B) (xs : List A) → Mem b (map f xs) → (a : A) × Mem a xs × (f a ≡ b)
  unfolding map
  map-Mem b [] h = elim h [ ]
  map-Mem b (x ∷ xs) (inl e) = (x, inl refl, e)
  map-Mem b (x ∷ xs) (inr h) = let (a, m, e) = map-Mem b xs h in (a, inr m, e)

module _ {A : Type 0} (p : A → Bool) where
  pub retain-Mem : (a : A) (xs : List A) → Mem a (retain p xs) → Mem a xs
  retain-Mem a [] h = h
  retain-Mem a (x ∷ xs) h = elim (Bool-cases (p x)) [
    | inl e ↦ elim (rw e at h) as (λ _. Mem a (x ∷ xs)) [
      | inl s ↦ inl s
      | inr m ↦ inr (retain-Mem a xs m)
    ]
    | inr e ↦ inr (retain-Mem a xs (rw e at h))
  ]

  pub Mem-retain : (a : A) (xs : List A) → p a ≡ true → Mem a xs → Mem a (retain p xs)
  Mem-retain a [] e h = h
  Mem-retain a (x ∷ xs) e (inl s) = let here : p x ≡ true = rw s e in rw here (inl s)
  Mem-retain a (x ∷ xs) e (inr m) = elim (Bool-cases (p x)) [
    | inl here ↦ rw here (inr (Mem-retain a xs e m))
    | inr gone ↦ rw gone (Mem-retain a xs e m)
  ]
