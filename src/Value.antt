-- ===== src/Value.antt =====
-- src/value.rs: the values of a document's fields and how a document is written as bytes. A value
-- that Rust keeps in a float is its 64 bits, a signed number the same, and a string is its bytes.
pub mod RoundTrip
use shanshui_cunji.Prelude.{
  ℕ, zero, suc, ◌+◌, ◌%◌, ◌^◌, Bool, true, false, ◌&&◌, not, Option, none, some, List, [], ◌∷◌,
  ◌++◌, ltb, leb, ◌==◌, if◌then◌else◌, length, slice, get_elem?,
}
use shanshui_cunji.Errors.{Result, ok, err, panic, corrupted, fail_if, ◌>>=◌, ◌>>◌}
use shanshui_cunji.Bytes.{Bytes, to_le, from_le}
use shanshui_cunji.Keys.{
  encode_varint, decode_varint, encode_varlen, decode_varlen, zigzag_encode, zigzag_decode,
}

pub data Value : Type 0 where
  null : Value
  bool : Bool → Value
  int float : ℕ → Value
  str bytes : Bytes → Value
  timestamp : ℕ → Value

unfoldable pub type_tag : Value → ℕ
type_tag null = 0
type_tag (bool b) = 1
type_tag (int v) = 2
type_tag (float f) = 3
type_tag (str s) = 4
type_tag (bytes b) = 5
type_tag (timestamp v) = 6

unfoldable pub encode_value : Value → Bytes → Bytes
encode_value null buf = buf
encode_value (bool b) buf = buf ++ ((if b then 1 else 0) ∷ [])
encode_value (int v) buf = encode_varint buf (zigzag_encode v)
encode_value (timestamp v) buf = encode_varint buf (zigzag_encode v)
encode_value (float f) buf = buf ++ to_le 8 f
encode_value (str s) buf = encode_varlen buf s
encode_value (bytes b) buf = encode_varlen buf b

-- `String::from_utf8`: how many bytes follow a first byte, and the bounds of the second one.
unfoldable pub lead : ℕ → Option (ℕ × ℕ × ℕ)
lead b =
    if ltb b 0x80
    then some (0, 0, 0)
    else if ltb b 0xc2
    then none
    else if ltb b 0xe0
    then some (1, 0x80, 0xbf)
    else if b == 0xe0
    then some (2, 0xa0, 0xbf)
    else if b == 0xed
    then some (2, 0x80, 0x9f)
    else if ltb b 0xf0
    then some (2, 0x80, 0xbf)
    else if b == 0xf0
    then some (3, 0x90, 0xbf)
    else if ltb b 0xf4
    then some (3, 0x80, 0xbf)
    else if b == 0xf4
    then some (3, 0x80, 0x8f)
    else none

-- The first argument counts the bytes of a character that are still to come.
unfoldable pub utf8_loop : ℕ → ℕ → ℕ → Bytes → Bool
utf8_loop zero low high [] = true
utf8_loop (suc n) low high [] = false
utf8_loop zero low high (b ∷ bs) = elim (lead b) [
  | none ↦ false
  | some (n, l, h) ↦ utf8_loop n l h bs
]
utf8_loop (suc n) low high (b ∷ bs) = leb low b && leb b high && utf8_loop n 0x80 0xbf bs

unfoldable pub is_utf8 : Bytes → Bool
unfolding utf8_loop
is_utf8 = utf8_loop 0 0 0

abbrev pub decode_bool : Bytes → ℕ → Result (Value × ℕ)
decode_bool buf pos = elim (get_elem? buf pos) [
  | none ↦ err corrupted
  | some b ↦ ok (bool (not (b == 0)), pos + 1)
]

abbrev pub decode_signed : ℕ → Bytes → ℕ → Result (Value × ℕ)
decode_signed tag buf pos = do
  (u, next) ← decode_varint buf pos
  ok (if tag == 6 then timestamp (zigzag_decode u) else int (zigzag_decode u), next)

abbrev pub decode_float : Bytes → ℕ → Result (Value × ℕ)
decode_float buf pos = do
  fail_if (ltb (length buf) (pos + 8)) corrupted
  ok (float (from_le (slice buf pos (pos + 8))), pos + 8)

abbrev pub decode_str : Bytes → ℕ → Result (Value × ℕ)
decode_str buf pos = do
  (raw, next) ← decode_varlen buf pos
  fail_if (not (is_utf8 raw)) corrupted
  ok (str raw, next)

abbrev pub decode_bytes : Bytes → ℕ → Result (Value × ℕ)
decode_bytes buf pos = do (raw, next) ← decode_varlen buf pos; ok (bytes raw, next)

unfoldable pub decode_value : ℕ → Bytes → ℕ → Result (Value × ℕ)
decode_value tag buf pos =
    if tag == 0
    then ok (null, pos)
    else if tag == 1
    then decode_bool buf pos
    else if tag == 2
    then decode_signed tag buf pos
    else if tag == 6
    then decode_signed tag buf pos
    else if tag == 3
    then decode_float buf pos
    else if tag == 4
    then decode_str buf pos
    else if tag == 5
    then decode_bytes buf pos
    else err corrupted

-- The loop of `encode_document`.
unfoldable pub push_fields : Bytes → List (ℕ × Value) → Bytes
push_fields buf [] = buf
push_fields buf ((fid, val) ∷ fields) =
    push_fields (encode_value val ((buf ++ to_le 2 fid) ++ (type_tag val ∷ []))) fields

-- The count of the fields is cut to 32 bits by `as u32`.
unfoldable pub encode_document : Bytes → ℕ → List (ℕ × Value) → Bytes
encode_document buf docid fields =
    push_fields ((buf ++ to_le 8 docid) ++ to_le 4 (length fields % 2 ^ 32)) fields

-- `buf[pos]`
abbrev pub byte_at : Bytes → ℕ → Result ℕ
byte_at buf pos = elim (get_elem? buf pos) [ none ↦ panic | some b ↦ ok b ]

-- The loop of `decode_document`; the first argument counts its rounds.
unfoldable pub read_fields : ℕ → Bytes → ℕ → Result (List (ℕ × Value))
read_fields zero buf pos = ok []
read_fields (suc count) buf pos = do
  fail_if (ltb (length buf) (pos + 3)) corrupted
  let fid = from_le (slice buf pos (pos + 2))
  tag ← byte_at buf (pos + 2)
  (val, next) ← decode_value tag buf (pos + 3)
  fields ← read_fields count buf next
  ok ((fid, val) ∷ fields)

unfoldable pub decode_document : Bytes → Result (ℕ × List (ℕ × Value))
decode_document buf = do
  fail_if (ltb (length buf) 12) corrupted
  fields ← read_fields (from_le (slice buf 8 12)) buf 12
  ok (from_le (slice buf 0 8), fields)
