-- ===== src/Tests/KeyRuns.antt =====
-- A composite key of two fields and small encodings.
use shanshui_cunji.Prelude.{◌≡◌, refl, List, [], ◌∷◌, ◌++◌, ◌+◌, ◌≤◌, length, arith}
use shanshui_cunji.Errors.{ok, panic}
use shanshui_cunji.Bytes.{Bytes, to_le, from_le}
use shanshui_cunji.Keys.{
  decode_varlen, encode_composite_key, decode_fields, decode_composite_key, encode_varint,
  read_docid, varint_bytes,
}
use shanshui_cunji.Keys.Composite.{
  decode-encode_composite_key, decode_fields_ends, decode_composite_key_panics,
}

abbrev city : Bytes
city = 66 ∷ 74 ∷ []

abbrev street : Bytes
street = 1 ∷ 2 ∷ 3 ∷ 4 ∷ 5 ∷ []

abbrev place : List Bytes
place = city ∷ street ∷ []

two_bytes : encode_varint [] 300 ≡ 172 ∷ 2 ∷ []
unfolding encode_varint varint_bytes
two_bytes = refl

cut_key : decode_composite_key (5 ∷ 0 ∷ 0 ∷ 0 ∷ street) ≡ panic
unfolding decode_composite_key decode_fields decode_varlen from_le read_docid
cut_key = refl

decode-encode_composite_key_example :
    decode_composite_key (encode_composite_key place 77) ≡ ok (place, 77)
decode-encode_composite_key_example =
    decode-encode_composite_key place 77 (omega arith, (omega arith, tt)) (omega arith)

decode_composite_key_panics_example :
    decode_composite_key (to_le 4 (length street) ++ street) ≡ panic
decode_composite_key_panics_example = decode_composite_key_panics street (omega arith) (omega arith)

decode_fields_ends_example : length (5 ∷ 0 ∷ 0 ∷ 0 ∷ street) ≤ 9 + 8
unfolding decode_fields decode_varlen from_le
decode_fields_ends_example =
    decode_fields_ends 9 (5 ∷ 0 ∷ 0 ∷ 0 ∷ street) 0 [] (street ∷ []) 9 (omega arith) refl
