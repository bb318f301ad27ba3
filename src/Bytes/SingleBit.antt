-- ===== src/Bytes/SingleBit.antt =====
-- One bit of a number, set by `bit_or` and tested by `bit_and`.
use Prim.Native.Nat.{bit_and, bit_or}
use native.Mathlib.Nat.{pow-suc}
use shanshui_cunji.Prelude.{ℕ, zero, suc, ◌*◌, ◌/◌, ◌%◌, ◌^◌, ◌<◌, ◌≡◌, arith}
use shanshui_cunji.Bytes.Bits.{or_low_digit, and_low_digit, and_one}

double_pow : (i : ℕ) → 2 ^ suc i ≡ 2 * 2 ^ i
double_pow i = omega (arith, pow-suc 2 i)

and_pow_suc : (x i : ℕ) → bit_and x (2 ^ suc i) ≡ bit_and (x / 2) (2 ^ i) * 2
and_pow_suc x i =
    let half : 2 ^ suc i / 2 ≡ 2 ^ i = omega (arith, double_pow i) in
    let even : 2 ^ suc i % 2 ≡ 0 = omega (arith, double_pow i) in
    omega (arith, rw half at (and_low_digit x (2 ^ suc i)), even)

or_half : (x y : ℕ) → bit_or x y / 2 ≡ bit_or (x / 2) (y / 2)
or_half x y = omega (arith, or_low_digit x y)

-- A bit that is there stays there.
pub bit_kept : (i x y : ℕ) → 0 < bit_and x (2 ^ i) → 0 < bit_and (bit_or x y) (2 ^ i)
bit_kept zero x y h = omega (arith, and_one x, and_one (bit_or x y), or_low_digit x y)
bit_kept (suc i) x y h =
    let later : 0 < bit_and (bit_or (x / 2) (y / 2)) (2 ^ i) =
      bit_kept i (x / 2) (y / 2) (omega (arith, and_pow_suc x i)) in
    omega (arith, and_pow_suc (bit_or x y) i, rw (← or_half x y) at later)

pub bit_set : (i x : ℕ) → 0 < bit_and (bit_or x (2 ^ i)) (2 ^ i)
bit_set zero x = omega (arith, and_one (bit_or x 1), or_low_digit x 1)
bit_set (suc i) x =
    let half : 2 ^ suc i / 2 ≡ 2 ^ i = omega (arith, double_pow i) in
    let same : bit_or x (2 ^ suc i) / 2 ≡ bit_or (x / 2) (2 ^ i) =
      rw half at (or_half x (2 ^ suc i)) in
    omega (arith, and_pow_suc (bit_or x (2 ^ suc i)) i, (rw (← same) at (bit_set i (x / 2))))
