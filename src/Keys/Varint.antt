-- ===== src/Keys/Varint.antt =====
-- Variable-length integers of src/keys.rs.
use native.Mathlib.Nat.{div-add-mod, mod-eq_of_lt}
use native.Mathlib.Numerals.{towards_suc}
use Prim.Native.Nat.{bit_and, bit_or}
use shanshui_cunji.Prelude.{
  ℕ, zero, suc, ◌+◌, ◌*◌, ◌/◌, ◌%◌, ◌^◌, ◌≤◌, ◌<◌, ◌≡◌, ap, ◌∷◌, ◌++◌, arith, length, length-append,
  drop-append, append_assoc, Bool-cases, inl, inr, false, ◌==◌,
}
use shanshui_cunji.Errors.{ok}
use shanshui_cunji.Bytes.{Bytes, IsU64}
use shanshui_cunji.Bytes.Bits.{bit_or_join, and_0x7f, and_0x80, or_0x80}
use shanshui_cunji.Keys.{varint_bytes, encode_varint, varint_loop, decode_varint}

shift_seven : (s : ℕ) → 2 ^ (s + 7) ≡ 128 * 2 ^ s
shift_seven s = simp towards_suc (omega arith)

-- The lowest seven bits of `n` and the rest, both moved up by `s` bits.
split_low : (n s : ℕ) → n % 128 * 2 ^ s + n / 128 * 2 ^ (s + 7) ≡ n * 2 ^ s
split_low n s = omega (
  arith,
  ap (λ (t : ℕ). t * 2 ^ s) (div-add-mod n 128),
  ap (λ (t : ℕ). n / 128 * t) (shift_seven s),
)

-- One round of the decoder, in plain arithmetic: `g` is what the byte carries.
join_group :
    (byte g acc shift : ℕ)
    → byte % 128 ≡ g
    → acc < 2 ^ shift
    → IsU64 (acc + g * 2 ^ shift)
    → bit_or acc (bit_and byte 0x7f * 2 ^ shift % 2 ^ 64) ≡ acc + g * 2 ^ shift
join_group byte g acc shift hb ha fits =
    rw (and_0x7f byte, hb, mod-eq_of_lt (let p : g * 2 ^ shift < 2 ^ 64 = omega arith in p))
      (bit_or_join shift acc g ha)

last_byte :
    (byte acc shift pos : ℕ) (rest : Bytes)
    → byte < 128
    → shift < 64
    → acc < 2 ^ shift
    → IsU64 (acc + byte * 2 ^ shift)
    → varint_loop (byte ∷ rest) pos acc shift ≡ ok (acc + byte * 2 ^ shift, pos + 1)
unfolding varint_loop
last_byte byte acc shift pos rest hb hs ha fits =
    ground (arith, join_group byte byte acc shift, and_0x80 byte)

inner_byte :
    (g acc shift pos : ℕ) (rest : Bytes)
    → g < 128
    → shift < 64
    → acc < 2 ^ shift
    → IsU64 (acc + g * 2 ^ shift)
    → varint_loop ((g + 128) ∷ rest) pos acc shift
      ≡ varint_loop rest (pos + 1) (acc + g * 2 ^ shift) (shift + 7)
unfolding varint_loop
inner_byte g acc shift pos rest hg hs ha fits =
    ground (arith, join_group (g + 128) g acc shift, and_0x80 (g + 128))

joined-lt : (g acc shift : ℕ) → g < 128 → acc < 2 ^ shift → acc + g * 2 ^ shift < 2 ^ (shift + 7)
joined-lt g acc shift hg ha =
    let bound : g * 2 ^ shift ≤ 127 * 2 ^ shift = grind arith in omega (arith, shift_seven shift)

low_fits : (n acc shift : ℕ) → IsU64 (acc + n * 2 ^ shift) → IsU64 (acc + n % 128 * 2 ^ shift)
low_fits n acc shift h = omega (arith, split_low n shift)

fuel_left : (fuel n : ℕ) → n < 128 ^ suc fuel → (n / 128 == 0) ≡ false → 0 < fuel
fuel_left zero n h more = ground arith
fuel_left (suc fuel) n h more = omega arith

varint_loop-varint_bytes :
    (fuel n acc shift pos : ℕ) (rest : Bytes)
    → n < 128 ^ fuel
    → 0 < fuel
    → shift + 7 * fuel ≤ 70
    → acc < 2 ^ shift
    → IsU64 (acc + n * 2 ^ shift)
    → varint_loop (varint_bytes fuel n ++ rest) pos acc shift
      ≡ ok (acc + n * 2 ^ shift, pos + length (varint_bytes fuel n))
unfolding varint_bytes
varint_loop-varint_bytes zero n acc shift pos rest hn hf hs ha fits = absurd (omega arith)
varint_loop-varint_bytes (suc fuel) n acc shift pos rest hn hf hs ha fits =
    elim (Bool-cases (n / 128 == 0)) [
      | inl done ↦
          rw (done, and_0x7f n)
            (let small : n % 128 ≡ n = ground arith in
              rw small (last_byte n acc shift pos rest (omega arith) (omega arith) ha fits))
      | inr more ↦
          rw (more, and_0x7f n, or_0x80 (n % 128) (omega arith))
            (ground (
              arith,
              inner_byte (n % 128) acc shift pos (varint_bytes fuel (n / 128) ++ rest) (omega arith)
                  (omega arith) ha (low_fits n acc shift fits),
              varint_loop-varint_bytes fuel (n / 128) (acc + n % 128 * 2 ^ shift) (shift + 7)
                  (pos + 1) rest (omega arith) (fuel_left fuel n hn more) (omega arith)
                  (joined-lt (n % 128) acc shift (omega arith) ha)
                  (omega (arith, split_low n shift)),
              split_low n shift,
            ))
    ]

-- A number below 2^64 is read back wherever it stands in a buffer, with
-- the position moved to the byte behind it.
pub decode-encode_varint :
    (buf rest : Bytes) (n : ℕ)
    → IsU64 n
    → decode_varint (encode_varint buf n ++ rest) (length buf)
      ≡ ok (n, length (encode_varint buf n))
unfolding decode_varint encode_varint
decode-encode_varint buf rest n h =
    rw (append_assoc, drop-append, length-append)
      (rw
        (varint_loop-varint_bytes 10 n 0 0 (length buf) rest (omega arith) (omega arith)
          (omega arith) (omega arith) (omega arith))
        (ground arith))
