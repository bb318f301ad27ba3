-- ===== src/Keys/Varlen.antt =====
-- Document ids and length-prefixed byte strings of src/keys.rs.
use native.Mathlib.Nat.{mod-eq_of_lt}
use shanshui_cunji.Prelude.{
  ℕ, ◌+◌, ◌≡◌, refl, false, ◌++◌, arith, ltb, ◌==◌, append_assoc, length, length-append, slice,
  slice_middle,
}
use shanshui_cunji.Errors.{ok, err, corrupted}
use shanshui_cunji.Bytes.{Bytes, IsU32, IsU64, to_le, from_le, bytes_lt}
use shanshui_cunji.Bytes.Laws.{length-to_le, length-to_be, from_le-to_le, from_be-to_be}
use shanshui_cunji.Bytes.Order.{bytes_lt-to_be}
use shanshui_cunji.Keys.{encode_docid, decode_docid, encode_varlen, decode_varlen}

-- A document id below 2^64 is read back from its eight bytes, and a string of any other length is
-- refused as corrupted.
pub decode-encode_docid :
    (docid : ℕ) (bytes : Bytes)
    → IsU64 docid
    → (length bytes == 8) ≡ false
    → (decode_docid (encode_docid docid) ≡ ok docid) × (decode_docid bytes ≡ err corrupted)
unfolding encode_docid decode_docid
decode-encode_docid docid bytes h e =
    (rw (length-to_be 8 docid, from_be-to_be 8 docid (omega arith)), rw e)

-- The byte order of two encoded document ids below 2^64 is the order of their numbers.
pub bytes_lt-encode_docid :
    (a b : ℕ) → IsU64 a → IsU64 b → bytes_lt (encode_docid a) (encode_docid b) ≡ ltb a b
unfolding encode_docid
bytes_lt-encode_docid a b ha hb = bytes_lt-to_be 8 a b (omega arith) (omega arith)

-- A length prefix and its string in the middle of a buffer.
module _ (pre value rest : Bytes) (h : IsU32 (length value)) where
  abbrev whole : Bytes
  whole = pre ++ (to_le 4 (length value) ++ (value ++ rest))

  length-whole : length whole ≡ length pre + 4 + length value + length rest
  length-whole = omega (
    arith,
    length-append pre (to_le 4 (length value) ++ (value ++ rest)),
    length-append (to_le 4 (length value)) (value ++ rest),
    length-append value rest,
    length-to_le 4 (length value),
  )

  prefix_read : from_le (slice whole (length pre) (length pre + 4)) ≡ length value
  prefix_read =
      rw
        (slice_middle pre (to_le 4 (length value)) (value ++ rest) (length pre) (length pre + 4)
          refl (omega (arith, length-to_le 4 (length value))))
        (from_le-to_le 4 (length value) (omega arith))

  string_read : slice whole (length pre + 4) (length pre + 4 + length value) ≡ value
  string_read = rw (← append_assoc pre (to_le 4 (length value)) (value ++ rest)) (
      slice_middle (pre ++ to_le 4 (length value)) value rest (length pre + 4)
        (length pre + 4 + length value)
        (omega (arith, length-append pre (to_le 4 (length value)), length-to_le 4 (length value)))
        refl)

  pub decode_varlen_at :
      decode_varlen whole (length pre) ≡ ok (value, length pre + 4 + length value)
  unfolding decode_varlen
  decode_varlen_at = ground (arith, length-whole, prefix_read, string_read)

pub encode_varlen_lem :
    (buf value : Bytes)
    → IsU32 (length value)
    → encode_varlen buf value ≡ buf ++ (to_le 4 (length value) ++ value)
unfolding encode_varlen
encode_varlen_lem buf value h =
    rw (mod-eq_of_lt h) (append_assoc buf (to_le 4 (length value)) value)

-- A string below 2^32 bytes is read back wherever it stands in a buffer, and the position moves to
-- the byte behind it.
pub decode-encode_varlen :
    (buf value rest : Bytes)
    → IsU32 (length value)
    → decode_varlen (encode_varlen buf value ++ rest) (length buf)
      ≡ ok (value, length buf + 4 + length value)
decode-encode_varlen buf value rest h =
    rw (encode_varlen_lem buf value h, append_assoc, append_assoc)
      (decode_varlen_at buf value rest h)
