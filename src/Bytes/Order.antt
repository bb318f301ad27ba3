-- ===== src/Bytes/Order.antt =====
-- The byte order of big-endian encodings is the order of the numbers.
use native.Mathlib.Nat.{div-add-mod, mod-eq_of_lt}
use shanshui_cunji.Prelude.{ℕ, zero, suc, ◌+◌, ◌*◌, ◌/◌, ◌%◌, ◌^◌, ◌<◌, ◌≡◌, ap, arith, ltb}
use shanshui_cunji.Bytes.{to_be, bytes_lt}
use shanshui_cunji.Bytes.Laws.{high_byte-lt, low_bytes-lt}

-- Comparing two numbers is comparing their quotients by `p` first, and their remainders next.
ltb_digits : (p qa ra qb rb : ℕ) → ra < p → rb < p → (qa < qb → p * qa + ra < p * qb + rb)
ltb_digits p qa ra qb rb ha hb h = grind arith

ltb_split : (w a b : ℕ) → (a / 256 ^ w < b / 256 ^ w → a < b)
ltb_split w a b h = omega (
  arith,
  div-add-mod a (256 ^ w),
  div-add-mod b (256 ^ w),
  ltb_digits (256 ^ w) (a / 256 ^ w) (a % 256 ^ w) (b / 256 ^ w) (b % 256 ^ w) (low_bytes-lt w a)
      (low_bytes-lt w b) h,
)

-- If the high digits agree, the low parts decide.
ltb_low : (w a b : ℕ) → a / 256 ^ w ≡ b / 256 ^ w → ltb (a % 256 ^ w) (b % 256 ^ w) ≡ ltb a b
ltb_low w a b e =
    ground (arith, div-add-mod a (256 ^ w), div-add-mod b (256 ^ w), ap (λ (t : ℕ). 256 ^ w * t) e)

pub bytes_lt-to_be :
    (w a b : ℕ) → a < 256 ^ w → b < 256 ^ w → bytes_lt (to_be w a) (to_be w b) ≡ ltb a b
unfolding to_be bytes_lt
bytes_lt-to_be zero a b ha hb = ground arith
bytes_lt-to_be (suc w) a b ha hb =
    rw (mod-eq_of_lt (high_byte-lt w a ha), mod-eq_of_lt (high_byte-lt w b hb))
      (ground (
        arith,
        ltb_split w a b,
        ltb_split w b a,
        ltb_low w a b,
        bytes_lt-to_be w (a % 256 ^ w) (b % 256 ^ w) (low_bytes-lt w a) (low_bytes-lt w b),
      ))
