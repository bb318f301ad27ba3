-- ===== src/Tests/ValueRuns.antt =====
-- Documents as bytes.
use shanshui_cunji.Prelude.{ℕ, ◌≡◌, refl, true, List, [], ◌∷◌, ◌++◌, ◌-◌, ◌^◌, arith}
use shanshui_cunji.Errors.{ok}
use shanshui_cunji.Bytes.{to_le}
use shanshui_cunji.Keys.{zigzag_encode}
use shanshui_cunji.Value.{
  Value, null, bool, int, float, str, timestamp, is_utf8, utf8_loop, lead, encode_document,
  push_fields, encode_value, type_tag, decode_document,
}
use shanshui_cunji.Value.RoundTrip.{decode-encode_document}

abbrev fields : List (ℕ × Value)
fields =
    (1, int (2 ^ 64 - 3))
    ∷ (2, str (104 ∷ 105 ∷ []))
    ∷ (3, bool true)
    ∷ (4, float 4607182418800017408)
    ∷ (5, timestamp 9)
    ∷ (6, null)
    ∷ []

-- The number -3 is written as 5.
minus_three : zigzag_encode (2 ^ 64 - 3) ≡ 5
unfolding zigzag_encode
minus_three = refl

-- An overlong form, a surrogate and a number beyond the last one are no UTF-8.
refused :
    (is_utf8 (0xc0 ∷ 0x80 ∷ []) ≡ is_utf8 (0xed ∷ 0xa0 ∷ 0x80 ∷ []))
    × (is_utf8 (0xf4 ∷ 0x90 ∷ 0x80 ∷ 0x80 ∷ []) ≡ is_utf8 (0x80 ∷ []))
    × (is_utf8 (0xe5 ∷ 0xb1 ∷ 0xb1 ∷ []) ≡ true)
unfolding is_utf8 lead
refused = (refl, refl, refl)

small :
    encode_document [] 258 ((7, bool true) ∷ [])
    ≡ 2 ∷ 1 ∷ 0 ∷ 0 ∷ 0 ∷ 0 ∷ 0 ∷ 0 ∷ 1 ∷ 0 ∷ 0 ∷ 0 ∷ 7 ∷ 0 ∷ 1 ∷ 1 ∷ []
unfolding encode_document push_fields encode_value to_le type_tag
small = refl

decode-encode_document_example :
    decode_document (encode_document [] 258 fields ++ (9 ∷ [])) ≡ ok (258, fields)
unfolding is_utf8 utf8_loop lead
decode-encode_document_example =
    decode-encode_document 258 fields (9 ∷ []) (omega arith) (omega arith) (
      (omega arith, omega arith),
      (
        (omega arith, (omega arith, refl)),
        (
          (omega arith, tt),
          ((omega arith, omega arith), ((omega arith, omega arith), ((omega arith, tt), tt))),
        ),
      ),
    )
