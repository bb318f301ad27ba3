-- ===== src/Keys.antt =====
-- src/keys.rs: how keys are written as bytes. A position in a buffer is passed in and returned; a
-- slice beyond the buffer's end is the outcome `panic`.
pub mod Varlen
pub mod Composite
pub mod Varint
pub mod Zigzag
use Prim.Native.Nat.{bit_and, bit_or, bit_xor}
use shanshui_cunji.Prelude.{
  ℕ, zero, suc, ◌+◌, ◌*◌, ◌/◌, ◌%◌, ◌^◌, ◌-◌, List, [], ◌∷◌, ◌++◌, ltb, leb, ◌==◌, if◌then◌else◌,
  length, drop, slice,
}
use shanshui_cunji.Errors.{Result, ok, err, panic, corrupted, fail_if, ◌>>=◌, ◌>>◌}
use shanshui_cunji.Bytes.{Bytes, to_le, from_le, to_be, from_be}

unfoldable pub encode_docid : ℕ → Bytes
encode_docid docid = to_be 8 docid

unfoldable pub decode_docid : Bytes → Result ℕ
decode_docid bytes = if length bytes == 8 then ok (from_be bytes) else err corrupted

-- The length is cut to 32 bits by `as u32`.
unfoldable pub encode_varlen : Bytes → Bytes → Bytes
encode_varlen buf value = (buf ++ to_le 4 (length value % 2 ^ 32)) ++ value

unfoldable pub decode_varlen : Bytes → ℕ → Result (Bytes × ℕ)
decode_varlen buf pos = do
  fail_if (ltb (length buf) (pos + 4)) corrupted
  let len = from_le (slice buf pos (pos + 4))
  let start = pos + 4
  fail_if (ltb (length buf) (start + len)) corrupted
  ok (slice buf start (start + len), start + len)

unfoldable pub encode_fields : Bytes → List Bytes → Bytes
encode_fields buf [] = buf
encode_fields buf (f ∷ fs) = encode_fields (encode_varlen buf f) fs

unfoldable pub encode_composite_key : List Bytes → ℕ → Bytes
encode_composite_key fields docid = encode_fields [] fields ++ to_be 8 docid

-- `while pos + 8 < buf.len()`. The first argument is fuel; a round takes four bytes at least.
unfoldable pub decode_fields : ℕ → Bytes → ℕ → List Bytes → Result (List Bytes × ℕ)
decode_fields zero buf pos fields = ok (fields, pos)
decode_fields (suc fuel) buf pos fields =
    let round = (do
      (v, next) ← decode_varlen buf pos
      decode_fields fuel buf next (fields ++ (v ∷ []))) in
    if ltb (pos + 8) (length buf) then round else ok (fields, pos)

-- `u64::from_be_bytes(buf[pos..pos + 8].try_into().unwrap())`
unfoldable pub read_docid : Bytes → ℕ → Result ℕ
read_docid buf pos =
    if ltb (length buf) (pos + 8) then panic else ok (from_be (slice buf pos (pos + 8)))

unfoldable pub decode_composite_key : Bytes → Result (List Bytes × ℕ)
decode_composite_key buf = do
  fail_if (ltb (length buf) 8) corrupted
  (fields, pos) ← decode_fields (length buf) buf 0 []
  docid ← read_docid buf pos
  ok (fields, docid)

-- The bytes that `encode_varint` pushes, on fuel; ten rounds are enough for a `u64`.
unfoldable pub varint_bytes : ℕ → ℕ → Bytes
varint_bytes zero n = []
varint_bytes (suc fuel) n =
    let byte = bit_and n 0x7f in
    let rest = varint_bytes fuel (n / 128) in
    if n / 128 == 0 then byte ∷ [] else bit_or byte 0x80 ∷ rest

unfoldable pub encode_varint : Bytes → ℕ → Bytes
encode_varint buf n = buf ++ varint_bytes 10 n

-- The loop of `decode_varint` over the bytes from `pos` on. `<<` on a `u64` drops the high bits.
unfoldable pub varint_loop : Bytes → ℕ → ℕ → ℕ → Result (ℕ × ℕ)
varint_loop [] pos result shift = err corrupted
varint_loop (byte ∷ rest) pos result shift =
    let joined = bit_or result (bit_and byte 0x7f * 2 ^ shift % 2 ^ 64) in
    let more = varint_loop rest (pos + 1) joined (shift + 7) in
    if leb 64 shift
    then err corrupted
    else if bit_and byte 0x80 == 0
    then ok (joined, pos + 1)
    else more

unfoldable pub decode_varint : Bytes → ℕ → Result (ℕ × ℕ)
decode_varint buf pos = varint_loop (drop pos buf) pos 0 0

-- An `i64` is its pattern of 64 bits, as a number below 2^64: `<<` drops the highest bit, `>>` by 63
-- leaves copies of the sign, and the negation of 1 is all ones.
unfoldable pub zigzag_encode : ℕ → ℕ
zigzag_encode v = bit_xor (v * 2 % 2 ^ 64) (if leb (2 ^ 63) v then 2 ^ 64 - 1 else 0)

unfoldable pub zigzag_decode : ℕ → ℕ
zigzag_decode u = bit_xor (u / 2) ((2 ^ 64 - bit_and u 1) % 2 ^ 64)
