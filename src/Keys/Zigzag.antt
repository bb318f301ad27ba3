-- ===== src/Keys/Zigzag.antt =====
-- The signed numbers of src/keys.rs.
use shanshui_cunji.Prelude.{ℕ, ◌-◌, ◌*◌, ◌/◌, ◌%◌, ◌^◌, ◌≡◌, arith, if◌then◌else◌, leb, ◌==◌}
use shanshui_cunji.Bytes.{IsU64}
use shanshui_cunji.Bytes.Bits.{and_one, xor_zero_bits, xor_ones}
use shanshui_cunji.Keys.{zigzag_encode, zigzag_decode}

-- A number that is not negative is doubled, and `-n` becomes `2n - 1`.
pub zigzag_encode_lem :
    (v : ℕ) → IsU64 v → zigzag_encode v ≡ (if leb (2 ^ 63) v then 2 * (2 ^ 64 - v) - 1 else v * 2)
unfolding zigzag_encode
zigzag_encode_lem v h =
    ground (arith, xor_zero_bits 64 (v * 2 % 2 ^ 64), xor_ones 64 (v * 2 % 2 ^ 64))

pub zigzag_decode_lem :
    (u : ℕ) → IsU64 u → zigzag_decode u ≡ (if u % 2 == 0 then u / 2 else 2 ^ 64 - 1 - u / 2)
unfolding zigzag_decode
zigzag_decode_lem u h = ground (arith, and_one u, xor_zero_bits 64 (u / 2), xor_ones 64 (u / 2))

pub IsU64-zigzag_encode : (v : ℕ) → IsU64 v → IsU64 (zigzag_encode v)
IsU64-zigzag_encode v h = ground (arith, zigzag_encode_lem v h)

pub decode-encode_zigzag : (v : ℕ) → IsU64 v → zigzag_decode (zigzag_encode v) ≡ v
decode-encode_zigzag v h =
    ground
      (arith, zigzag_encode_lem v h, zigzag_decode_lem (zigzag_encode v) (IsU64-zigzag_encode v h))
