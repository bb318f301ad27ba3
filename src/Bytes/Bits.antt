-- ===== src/Bytes/Bits.antt =====
-- `|` and `&` of the varint coder as arithmetic, at every width.
use Prim.Native.Nat.{
  max, min, bit_and, bit_or, bit_xor, differ, digits, bit_and-bitwise, bit_or-bitwise,
  bit_xor-bitwise,
}
use native.Mathlib.Nat.{pow-suc, mod-lt, div-add-mod'}
use shanshui_cunji.Prelude.{
  ℕ, zero, suc, ◌+◌, ◌-◌, ◌*◌, ◌/◌, ◌%◌, ◌^◌, ◌≤◌, ◌<◌, ◌≡◌, refl, ap, arith,
}

-- `digits` with two amounts of fuel, each enough for the first number.
fuel_irrelevant :
    (g : ℕ → ℕ) (op : ℕ → ℕ → ℕ) (k l x y : ℕ)
    → x ≤ k
    → x ≤ l
    → digits g op k x y ≡ digits g op l x y
fuel_irrelevant g op zero zero zero y hk hl = refl
fuel_irrelevant g op zero (suc l) zero y hk hl = refl
fuel_irrelevant g op (suc k) zero zero y hk hl = refl
fuel_irrelevant g op (suc k) (suc l) zero y hk hl = refl
fuel_irrelevant g op (suc k) (suc l) (suc x) y hk hl =
    ap (λ (t : ℕ). t * 2 + op (suc x % 2) (y % 2))
      (fuel_irrelevant g op k l (suc x / 2) (y / 2) (omega arith) (omega arith))
fuel_irrelevant g op _ _ (suc x) y hk hl = absurd (omega arith)

pub or_low_digit : (x y : ℕ) → bit_or x y ≡ bit_or (x / 2) (y / 2) * 2 + max (x % 2) (y % 2)
or_low_digit zero y = omega (arith, bit_or-bitwise 0 y, bit_or-bitwise 0 (y / 2))
or_low_digit (suc x) y = omega (
  arith,
  bit_or-bitwise (suc x) y,
  bit_or-bitwise (suc x / 2) (y / 2),
  fuel_irrelevant (λ z. z) max x (suc x / 2) (suc x / 2) (y / 2) (omega arith) (omega arith),
)

pub and_low_digit : (x y : ℕ) → bit_and x y ≡ bit_and (x / 2) (y / 2) * 2 + min (x % 2) (y % 2)
and_low_digit zero y = omega (arith, bit_and-bitwise 0 y, bit_and-bitwise 0 (y / 2))
and_low_digit (suc x) y = omega (
  arith,
  bit_and-bitwise (suc x) y,
  bit_and-bitwise (suc x / 2) (y / 2),
  fuel_irrelevant (λ z. 0) min x (suc x / 2) (suc x / 2) (y / 2) (omega arith) (omega arith),
)

-- A field of bits from `s` on, joined to a number of `s` bits.
pub bit_or_join : (s low high : ℕ) → low < 2 ^ s → bit_or low (high * 2 ^ s) ≡ low + high * 2 ^ s
bit_or_join zero zero high h = omega (arith, bit_or-bitwise 0 (high * 1))
bit_or_join zero (suc low) high h = absurd (omega arith)
bit_or_join (suc s) low high h =
    let doubled : high * 2 ^ suc s ≡ high * 2 ^ s * 2 =
      omega (arith, ap (λ (t : ℕ). high * t) (pow-suc 2 s)) in
    let halved : high * 2 ^ suc s / 2 ≡ high * 2 ^ s = omega arith in
    ground (arith, or_low_digit low (high * 2 ^ suc s), bit_or_join s (low / 2) high (omega arith))

and_zero_mask : (fuel x : ℕ) → x ≤ fuel → bit_and x 0 ≡ 0
and_zero_mask fuel zero h = omega (arith, bit_and-bitwise 0 0)
and_zero_mask zero (suc x) h = absurd (omega arith)
and_zero_mask (suc fuel) (suc x) h =
    omega (arith, and_low_digit (suc x) 0, and_zero_mask fuel (suc x / 2) (omega arith))

pub and_one : (x : ℕ) → bit_and x 1 ≡ x % 2
and_one x = omega (arith, and_low_digit x 1, and_zero_mask (x / 2) (x / 2) (omega arith))

and_fifteen : (x : ℕ) → bit_and x 15 ≡ x % 16
and_fifteen x = omega (
  arith,
  and_low_digit x 15,
  and_low_digit (x / 2) 7,
  and_low_digit (x / 2 / 2) 3,
  and_one (x / 2 / 2 / 2),
)

pub and_0x7f : (x : ℕ) → bit_and x 0x7f ≡ x % 128
and_0x7f x = omega (
  arith,
  and_low_digit x 127,
  and_low_digit (x / 2) 63,
  and_low_digit (x / 2 / 2) 31,
  and_fifteen (x / 2 / 2 / 2),
)

and_sixteen : (x : ℕ) → bit_and x 16 ≡ x / 16 % 2 * 16
and_sixteen x = omega (
  arith,
  and_low_digit x 16,
  and_low_digit (x / 2) 8,
  and_low_digit (x / 2 / 2) 4,
  and_low_digit (x / 2 / 2 / 2) 2,
  and_one (x / 2 / 2 / 2 / 2),
)

pub and_0x80 : (x : ℕ) → bit_and x 0x80 ≡ x / 128 % 2 * 128
and_0x80 x = omega (
  arith,
  and_low_digit x 128,
  and_low_digit (x / 2) 64,
  and_low_digit (x / 2 / 2) 32,
  and_sixteen (x / 2 / 2 / 2),
)

pub or_0x80 : (x : ℕ) → x < 128 → bit_or x 0x80 ≡ x + 128
or_0x80 x h = bit_or_join 7 x 1 (omega arith)

or_comm_fuel : (fuel x y : ℕ) → x ≤ fuel → y ≤ fuel → bit_or x y ≡ bit_or y x
or_comm_fuel fuel zero zero hx hy = refl
or_comm_fuel zero (suc x) y hx hy = absurd (omega arith)
or_comm_fuel zero zero (suc y) hx hy = absurd (omega arith)
or_comm_fuel (suc fuel) x y hx hy = omega (
  arith,
  or_low_digit x y,
  or_low_digit y x,
  or_comm_fuel fuel (x / 2) (y / 2) (omega arith) (omega arith),
)

-- The same with the field written first.
pub bit_or_field : (s high low : ℕ) → low < 2 ^ s → bit_or (high * 2 ^ s) low ≡ high * 2 ^ s + low
bit_or_field s high low h = omega (
  arith,
  or_comm_fuel (high * 2 ^ s + low) (high * 2 ^ s) low (omega arith) (omega arith),
  bit_or_join s low high h,
)

two_pow-pos : (k : ℕ) → 0 < 2 ^ k
two_pow-pos zero = omega arith
two_pow-pos (suc k) = omega (arith, two_pow-pos k)

-- A mask of `k` ones keeps the `k` low digits of a number that is written as field and rest.
mask_field : (k high low : ℕ) → low < 2 ^ k → bit_and (high * 2 ^ k + low) (2 ^ k - 1) ≡ low
mask_field zero high low h =
    rw (and_zero_mask (high * 1 + low) (high * 1 + low) (omega arith)) (omega arith)
mask_field (suc k) high low h =
    let doubled : high * 2 ^ suc k ≡ high * 2 ^ k * 2 =
      omega (arith, ap (λ (t : ℕ). high * t) (pow-suc 2 k)) in
    let halved : (high * 2 ^ suc k + low) / 2 ≡ high * 2 ^ k + low / 2 = omega arith in
    let mask : (2 ^ suc k - 1) / 2 ≡ 2 ^ k - 1 = omega (arith, two_pow-pos k) in
    ground (
      arith,
      two_pow-pos k,
      and_low_digit (high * 2 ^ suc k + low) (2 ^ suc k - 1),
      mask_field k high (low / 2) (omega arith),
    )

pub bit_and_mask : (k x : ℕ) → bit_and x (2 ^ k - 1) ≡ x % 2 ^ k
bit_and_mask k x =
    ground (
      arith,
      div-add-mod' x (2 ^ k),
      mask_field k (x / 2 ^ k) (x % 2 ^ k) (mod-lt x (two_pow-pos k)),
    )

xor_low_digit : (x y : ℕ) → bit_xor x y ≡ bit_xor (x / 2) (y / 2) * 2 + differ (x % 2) (y % 2)
xor_low_digit zero y = ground (arith, bit_xor-bitwise 0 y, bit_xor-bitwise 0 (y / 2))
xor_low_digit (suc x) y = omega (
  arith,
  bit_xor-bitwise (suc x) y,
  bit_xor-bitwise (suc x / 2) (y / 2),
  fuel_irrelevant (λ z. z) differ x (suc x / 2) (suc x / 2) (y / 2) (omega arith) (omega arith),
)

differ_zero : (x : ℕ) → differ x 0 ≡ x
differ_zero zero = refl
differ_zero (suc x) = refl

differ_one : (x : ℕ) → x < 2 → differ x 1 ≡ 1 - x
differ_one zero h = refl
differ_one (suc zero) h = refl
differ_one (suc (suc x)) h = absurd (omega arith)

differ-lt : (x y : ℕ) → x < 2 → y < 2 → differ x y < 2
differ-lt x zero hx hy = omega (arith, differ_zero x)
differ-lt x (suc zero) hx hy = omega (arith, differ_one x hx)
differ-lt x (suc (suc y)) hx hy = absurd (omega arith)

pub xor_zero_bits : (w x : ℕ) → x < 2 ^ w → bit_xor x 0 ≡ x
xor_zero_bits zero zero h = omega (arith, bit_xor-bitwise 0 0)
xor_zero_bits zero (suc x) h = absurd (omega arith)
xor_zero_bits (suc w) x h = omega (
  arith,
  xor_low_digit x 0,
  differ_zero (x % 2),
  pow-suc 2 w,
  xor_zero_bits w (x / 2) (omega (arith, pow-suc 2 w)),
)

-- Against all ones, `^` takes the complement.
pub xor_ones : (w x : ℕ) → x < 2 ^ w → bit_xor x (2 ^ w - 1) ≡ 2 ^ w - 1 - x
xor_ones zero zero h = omega (arith, bit_xor-bitwise 0 0)
xor_ones zero (suc x) h = absurd (omega arith)
xor_ones (suc w) x h =
    let halved : (2 ^ suc w - 1) / 2 ≡ 2 ^ w - 1 = omega (arith, pow-suc 2 w) in
    let odd : (2 ^ suc w - 1) % 2 ≡ 1 = omega (arith, pow-suc 2 w) in
    let digits_apart : bit_xor x (2 ^ suc w - 1)
        ≡ bit_xor (x / 2) (2 ^ w - 1) * 2 + differ (x % 2) 1 =
      rw (halved, odd) at (xor_low_digit x (2 ^ suc w - 1)) in
    omega (
      arith,
      digits_apart,
      xor_ones w (x / 2) (omega (arith, pow-suc 2 w)),
      differ_one (x % 2) (omega arith),
      pow-suc 2 w,
    )

pub bit_xor-lt : (w x y : ℕ) → x < 2 ^ w → y < 2 ^ w → bit_xor x y < 2 ^ w
bit_xor-lt zero x y hx hy =
    let x0 : x ≡ 0 = omega arith in
    let y0 : y ≡ 0 = omega arith in rw (x0, y0) (omega (arith, bit_xor-bitwise 0 0))
bit_xor-lt (suc w) x y hx hy = omega (
  arith,
  xor_low_digit x y,
  differ-lt (x % 2) (y % 2) (omega arith) (omega arith),
  pow-suc 2 w,
  bit_xor-lt w (x / 2) (y / 2) (omega (arith, pow-suc 2 w)) (omega (arith, pow-suc 2 w)),
)
