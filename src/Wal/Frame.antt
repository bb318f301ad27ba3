-- ===== src/Wal/Frame.antt =====
-- One record of the log: what is decoded from its payload, and how its frame is cut off.
use shanshui_cunji.Prelude.{
  ℕ, ◌+◌, ◌<◌, ◌≡◌, refl, sym, ◌∙◌, ◌&&◌, Option, none, some, [], ◌∷◌, ◌++◌, arith, append-nil,
  append_assoc, ◌==◌, if◌then◌else◌, length, length-append, slice, slice_middle,
}
use shanshui_cunji.Errors.{ok}
use shanshui_cunji.Bytes.{Bytes, IsU32, IsU64, to_le, from_le}
use shanshui_cunji.Bytes.Laws.{length-to_le, from_le-to_le}
use shanshui_cunji.Keys.{encode_varlen, decode_varlen}
use shanshui_cunji.Keys.Varlen.{encode_varlen_lem, decode-encode_varlen}
use shanshui_cunji.Wal.{op_delete, or_empty, payload_of, decode_payload}

length-encode_varlen :
    (buf value : Bytes)
    → IsU32 (length value)
    → length (encode_varlen buf value) ≡ length buf + 4 + length value
length-encode_varlen buf value h = rw (encode_varlen_lem buf value h) (
    omega (
      arith,
      length-append buf (to_le 4 (length value) ++ value),
      length-append (to_le 4 (length value)) value,
      length-to_le 4 (length value),
    ))

-- The value that comes back: an empty one of a delete is none.
abbrev pub reread : ℕ → Option Bytes → Option Bytes
reread op value =
    if length (or_empty value) == 0 && op == op_delete then none else some (or_empty value)

-- What the formats of sequence number, operation and lengths can hold.
pub record Fits (op seq : ℕ) (key : Bytes) (value : Option Bytes) : Type 0 where
  pub op_byte : op < 256
  pub seq_u64 : IsU64 seq
  pub key_u32 : IsU32 (length key)
  pub value_u32 : IsU32 (length (or_empty value))

module _ (op seq : ℕ) (key : Bytes) (value : Option Bytes) (fits : Fits op seq key value) where
  abbrev head : Bytes
  head = to_le 8 seq ++ (op ∷ [])

  abbrev tail : Bytes
  tail = to_le 4 (length (or_empty value)) ++ or_empty value

  length-head : length head ≡ 9
  length-head = omega (arith, length-append (to_le 8 seq) (op ∷ []), length-to_le 8 seq)

  payload_tail : payload_of op key value seq ≡ encode_varlen head key ++ tail
  unfolding payload_of
  payload_tail = encode_varlen_lem (encode_varlen head key) (or_empty value) fits.value_u32

  payload_head :
      payload_of op key value seq
      ≡ to_le 8 seq ++ ((op ∷ []) ++ ((to_le 4 (length key) ++ key) ++ tail))
  payload_head = payload_tail ∙ rw (encode_varlen_lem head key fits.key_u32) (simp append_assoc)

  pub length-payload_of :
      length (payload_of op key value seq) ≡ 17 + length key + length (or_empty value)
  length-payload_of = rw payload_tail (
      omega (
        arith,
        length-append (encode_varlen head key) tail,
        length-encode_varlen head key fits.key_u32,
        length-head,
        length-append (to_le 4 (length (or_empty value))) (or_empty value),
        length-to_le 4 (length (or_empty value)),
      ))

  key_read : decode_varlen (payload_of op key value seq) 9 ≡ ok (key, 13 + length key)
  key_read = rw payload_tail (rw length-head at (decode-encode_varlen head key tail fits.key_u32))

  value_read :
      decode_varlen (payload_of op key value seq) (13 + length key)
      ≡ ok (or_empty value, 13 + length key + 4 + length (or_empty value))
  unfolding payload_of
  value_read =
      rw (append-nil, length-encode_varlen head key fits.key_u32, length-head) at
        (decode-encode_varlen (encode_varlen head key) (or_empty value) [] fits.value_u32)

  seq_read : from_le (slice (payload_of op key value seq) 0 8) ≡ seq
  seq_read =
      rw
        (
          payload_head,
          slice_middle [] (to_le 8 seq) ((op ∷ []) ++ ((to_le 4 (length key) ++ key) ++ tail)) 0 8
              refl (omega (arith, length-to_le 8 seq)),
        )
        (from_le-to_le 8 seq (omega (arith, fits.seq_u64)))

  op_read : from_le (slice (payload_of op key value seq) 8 9) ≡ op
  unfolding from_le
  op_read =
      rw
        (
          payload_head,
          slice_middle (to_le 8 seq) (op ∷ []) ((to_le 4 (length key) ++ key) ++ tail) 8 9
              (sym (length-to_le 8 seq)) refl,
        )
        (omega arith)

  -- A payload whose parts fit their formats is decoded to the record it was made of; the value of a
  -- delete is read back as none when it is empty, and an absent value of a put as an empty one.
  pub decode_payload-payload_of :
      decode_payload (payload_of op key value seq)
      ≡ ok (record { seq = seq; op = op; key = key; value = reread op value })
  unfolding decode_payload
  decode_payload-payload_of =
      ground (arith, length-payload_of, key_read, value_read, seq_read, op_read)
