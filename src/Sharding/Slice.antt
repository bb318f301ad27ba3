-- ===== src/Sharding/Slice.antt =====
-- The two slice methods of Rust that the ring of src/sharding.rs uses, as far as they are documented:
-- an unstable sort leaves the order of equal keys open, and a binary search may report any of them.
use shanshui_cunji.Prelude.{ℕ, ◌≤◌, ◌<◌, ◌≡◌, List, some, length, get_elem?, Mem, ◌↔◌}

abbrev pub Point : Type 0
Point = ℕ × ℕ

-- `Ok(i)` and `Err(i)`.
pub data Search : Type 0 where
  found missing : ℕ → Search

-- The first key of a later place is not smaller.
abbrev pub IsSorted : List Point → Type 0
IsSorted ring =
    (i j : ℕ) (p q : Point)
    → i ≤ j
    → get_elem? ring i ≡ some p
    → get_elem? ring j ≡ some q
    → p.0 ≤ q.0

-- A place that the search may report for a key.
abbrev pub Finds : List Point → ℕ → Search → Type 0
Finds ring key (found i) = (p : Point) × (get_elem? ring i ≡ some p) × (p.0 ≡ key)
Finds ring key (missing i) =
    (i ≤ length ring)
    × ((j : ℕ) (q : Point) → get_elem? ring j ≡ some q → j < i → q.0 < key)
    × ((j : ℕ) (q : Point) → get_elem? ring j ≡ some q → i ≤ j → key < q.0)

pub record SliceMethods : Type 0 where
  pub sort_unstable_by_key : List Point → List Point
  pub binary_search_by_key : List Point → ℕ → Search
  pub sort-IsSorted : (points : List Point) → IsSorted (sort_unstable_by_key points)
  pub sort-Mem :
      (points : List Point) (p : Point) → Mem p (sort_unstable_by_key points) ↔ Mem p points
  pub search-Finds :
      (ring : List Point) (key : ℕ) → IsSorted ring → Finds ring key (binary_search_by_key ring key)
