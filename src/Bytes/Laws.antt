-- ===== src/Bytes/Laws.antt =====
-- Round trips of the fixed-width encodings.
use native.Mathlib.Nat.{div-add-mod, mod-lt, mod-eq_of_lt, div-lt_iff_lt-mul, mul_comm}
use shanshui_cunji.Prelude.{ℕ, zero, suc, ◌/◌, ◌%◌, ◌^◌, ◌<◌, ◌≡◌, refl, ap, arith, length}
use shanshui_cunji.Bytes.{to_le, from_le, to_be, from_be}

pub length-to_le : (w n : ℕ) → length (to_le w n) ≡ w
unfolding to_le
length-to_le zero n = refl
length-to_le (suc w) n = ap suc (length-to_le w (n / 256))

pub length-to_be : (w n : ℕ) → length (to_be w n) ≡ w
unfolding to_be
length-to_be zero n = refl
length-to_be (suc w) n = ap suc (length-to_be w (n % 256 ^ w))

pub from_le-to_le : (w n : ℕ) → n < 256 ^ w → from_le (to_le w n) ≡ n
unfolding to_le from_le
from_le-to_le zero n h = omega arith
from_le-to_le (suc w) n h = omega (arith, from_le-to_le w (n / 256) (omega arith))

pub 256_pow-pos : (w : ℕ) → 0 < 256 ^ w
256_pow-pos zero = omega arith
256_pow-pos (suc w) = omega (arith, 256_pow-pos w)

pub high_byte-lt : (w n : ℕ) → n < 256 ^ suc w → n / 256 ^ w < 256
high_byte-lt w n h = (div-lt_iff_lt-mul (256_pow-pos w)).1 (omega arith)

pub low_bytes-lt : (w n : ℕ) → n % 256 ^ w < 256 ^ w
low_bytes-lt w n = mod-lt n (256_pow-pos w)

pub from_be-to_be : (w n : ℕ) → n < 256 ^ w → from_be (to_be w n) ≡ n
unfolding to_be from_be
from_be-to_be zero n h = omega arith
from_be-to_be (suc w) n h =
    rw
      (
        length-to_be w (n % 256 ^ w),
        from_be-to_be w (n % 256 ^ w) (low_bytes-lt w n),
        mod-eq_of_lt (high_byte-lt w n h),
      )
      (omega (arith, div-add-mod n (256 ^ w), mul_comm (256 ^ w) (n / 256 ^ w)))
