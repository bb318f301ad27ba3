-- ===== src/Bytes/Total.antt =====
-- `bytes_lt` is a strict total order, and `bytes_eq` decides equality.
use shanshui_cunji.Prelude.{◌≡◌, refl, true, false, [], ◌∷◌, arith}
use shanshui_cunji.Bytes.{Bytes, bytes_lt, bytes_eq}

pub bytes_eq→eq : (a b : Bytes) → bytes_eq a b ≡ true → a ≡ b
unfolding bytes_eq
bytes_eq→eq [] [] e = refl
bytes_eq→eq [] (y ∷ b) e = cc
bytes_eq→eq (x ∷ a) [] e = cc
bytes_eq→eq (x ∷ a) (y ∷ b) e = ground (arith, bytes_eq→eq a b)

pub bytes_eq_refl : (a : Bytes) → bytes_eq a a ≡ true
unfolding bytes_eq
bytes_eq_refl [] = refl
bytes_eq_refl (x ∷ a) = ground (arith, bytes_eq_refl a)

pub bytes_lt_irrefl : (a : Bytes) → bytes_lt a a ≡ false
unfolding bytes_lt
bytes_lt_irrefl [] = refl
bytes_lt_irrefl (x ∷ a) = ground (arith, bytes_lt_irrefl a)

pub bytes_lt_trans :
    (a b c : Bytes) → bytes_lt a b ≡ true → bytes_lt b c ≡ true → bytes_lt a c ≡ true
unfolding bytes_lt
bytes_lt_trans [] [] c p q = cc
bytes_lt_trans [] (y ∷ b) [] p q = cc
bytes_lt_trans [] (y ∷ b) (z ∷ c) p q = refl
bytes_lt_trans (x ∷ a) [] c p q = cc
bytes_lt_trans (x ∷ a) (y ∷ b) [] p q = cc
bytes_lt_trans (x ∷ a) (y ∷ b) (z ∷ c) p q = ground (arith, bytes_lt_trans a b c)

-- Neither below the other: equal.
pub bytes_total : (a b : Bytes) → bytes_lt a b ≡ false → bytes_lt b a ≡ false → bytes_eq a b ≡ true
unfolding bytes_lt bytes_eq
bytes_total [] [] p q = refl
bytes_total [] (y ∷ b) p q = cc
bytes_total (x ∷ a) [] p q = cc
bytes_total (x ∷ a) (y ∷ b) p q = ground (arith, bytes_total a b)
