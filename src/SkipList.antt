-- ===== src/SkipList.antt =====
-- The ordered map that src/memtable.rs takes from the package crossbeam_skiplist, as an interface:
-- the calls that are made, and what its documentation says of them, told on the list of its entries
-- in iteration order.
pub mod Sorted
use shanshui_cunji.Prelude.{
  ◌≡◌, refl, Bool, is_some, Option, none, some, List, [], ◌∷◌, if◌then◌else◌,
}
use shanshui_cunji.Bytes.{Bytes, bytes_lt, bytes_eq}

abbrev pub Entries {ℓ} : Type ℓ → Type ℓ
Entries V = List (Bytes × V)

module _ {ℓ} {V : Type ℓ} where
  unfoldable pub sorted_get : Bytes → Entries V → Option V
  sorted_get key [] = none
  sorted_get key ((k, v) ∷ m) =
      let rest = sorted_get key m in if bytes_eq k key then some v else rest

  -- In ascending order of the keys; the value of a key that is there is replaced.
  unfoldable pub sorted_insert : Bytes → V → Entries V → Entries V
  sorted_insert key v [] = (key, v) ∷ []
  sorted_insert key v ((k, w) ∷ m) =
      let rest = sorted_insert key v m in
      if bytes_lt key k
      then (key, v) ∷ (k, w) ∷ m
      else if bytes_lt k key
      then (k, w) ∷ rest
      else (key, v) ∷ m

  -- The entries from the first key at or above `s` on.
  unfoldable pub sorted_from : Bytes → Entries V → Entries V
  sorted_from s [] = []
  sorted_from s ((k, v) ∷ m) =
      let rest = sorted_from s m in if bytes_lt k s then rest else (k, v) ∷ m

-- `SkipMap<Vec<u8>, V>`. `range_from` is `range` with an included start and no end.
pub record SkipMap {ℓ κ} (V : Type ℓ) (M : Type κ) : Type (ℓ ⊔ κ) where
  pub empty : M
  pub get : Bytes → M → Option V
  pub insert : Bytes → V → M → M
  pub contains_key : Bytes → M → Bool
  pub iter : M → Entries V
  pub range_from : Bytes → M → Entries V
  pub iter-empty : iter empty ≡ []
  pub iter-insert :
      (key : Bytes) (v : V) (m : M) → iter (insert key v m) ≡ sorted_insert key v (iter m)
  pub get-iter : (key : Bytes) (m : M) → get key m ≡ sorted_get key (iter m)
  pub contains_key-get : (key : Bytes) (m : M) → contains_key key m ≡ is_some (get key m)
  pub range_from-iter : (s : Bytes) (m : M) → range_from s m ≡ sorted_from s (iter m)

-- The list of entries is such a map.
abbrev pub sorted_list {ℓ} : (V : Type ℓ) → SkipMap V (Entries V)
sorted_list V = record {
  empty = [];
  get = sorted_get;
  insert = sorted_insert;
  contains_key = λ key m. is_some (sorted_get key m);
  iter = λ m. m;
  range_from = sorted_from;
  iter-empty = refl;
  iter-insert = λ key v m. refl;
  get-iter = λ key m. refl;
  contains_key-get = λ key m. refl;
  range_from-iter = λ s m. refl;
}
