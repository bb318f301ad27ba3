-- ===== src/Value/RoundTrip.antt =====
-- Documents of src/value.rs: what is written is read back.
use native.Mathlib.Nat.{mod-eq_of_lt}
use shanshui_cunji.Prelude.{
  ℕ, ◌+◌, ◌^◌, ◌<◌, ◌≡◌, refl, ap, sym, true, false, some, List, [], ◌∷◌, ◌++◌, append-nil,
  append_assoc, arith, ltb, if◌then◌else◌, length, length-append, slice, slice_middle, get_elem?,
  All,
}
use shanshui_cunji.Errors.{ok}
use shanshui_cunji.Bytes.{Bytes, IsU32, IsU64, to_le, from_le}
use shanshui_cunji.Bytes.Laws.{length-to_le, from_le-to_le}
use shanshui_cunji.Keys.{encode_varint, encode_varlen, zigzag_encode}
use shanshui_cunji.Keys.Varint.{decode-encode_varint}
use shanshui_cunji.Keys.Varlen.{decode-encode_varlen, encode_varlen_lem}
use shanshui_cunji.Keys.Zigzag.{decode-encode_zigzag, IsU64-zigzag_encode}
use shanshui_cunji.Value.{
  Value, null, bool, int, float, str, bytes, timestamp, type_tag, encode_value, is_utf8,
  decode_value, push_fields, read_fields, encode_document, decode_document, byte_at,
}

-- Numbers of 64 bits, texts in UTF-8, and no string of 2^32 bytes or more.
abbrev pub IsFit : Value → Type 0
IsFit null = Unit
IsFit (bool b) = Unit
IsFit (int v) = IsU64 v
IsFit (float f) = IsU64 f
IsFit (str s) = IsU32 (length s) × (is_utf8 s ≡ true)
IsFit (bytes b) = IsU32 (length b)
IsFit (timestamp v) = IsU64 v

-- A value is appended.
encode_value-append : (v : Value) (buf : Bytes) → encode_value v buf ≡ buf ++ encode_value v []
unfolding encode_value encode_varint encode_varlen
encode_value-append null buf = sym (append-nil buf)
encode_value-append (bool b) buf = refl
encode_value-append (int v) buf = refl
encode_value-append (float f) buf = refl
encode_value-append (str s) buf = append_assoc buf _ s
encode_value-append (bytes b) buf = append_assoc buf _ b
encode_value-append (timestamp v) buf = refl

get_elem?-middle : (buf rest : Bytes) (b : ℕ) → get_elem? (buf ++ (b ∷ rest)) (length buf) ≡ some b
get_elem?-middle [] rest b = refl
get_elem?-middle (x ∷ buf) rest b = get_elem?-middle buf rest b

length-encode_varlen :
    (buf value : Bytes)
    → IsU32 (length value)
    → length buf + 4 + length value ≡ length (encode_varlen buf value)
length-encode_varlen buf value h =
    rw (encode_varlen_lem buf value h, length-append, length-append, length-to_le) (omega arith)

decode-encode_value :
    (v : Value) (buf rest : Bytes)
    → IsFit v
    → decode_value (type_tag v) (encode_value v buf ++ rest) (length buf)
      ≡ ok (v, length (encode_value v buf))
unfolding decode_value type_tag encode_value
decode-encode_value null buf rest h = refl
decode-encode_value (bool b) buf rest h =
    let here : get_elem? ((buf ++ ((if b then 1 else 0) ∷ [])) ++ rest) (length buf)
        ≡ some (if b then 1 else 0) =
      rw append_assoc (get_elem?-middle buf rest (if b then 1 else 0)) in
    ground (arith, here, length-append buf ((if b then 1 else 0) ∷ []))
decode-encode_value (int v) buf rest h =
    rw
      (
        decode-encode_varint buf rest (zigzag_encode v) (IsU64-zigzag_encode v h),
        decode-encode_zigzag v h,
      )
      refl
decode-encode_value (float f) buf rest h =
    let read : from_le (slice ((buf ++ to_le 8 f) ++ rest) (length buf) (length buf + 8)) ≡ f =
      rw
        (
          append_assoc,
          slice_middle buf (to_le 8 f) rest (length buf) (length buf + 8) refl
              (omega (arith, length-to_le 8 f)),
        )
        (from_le-to_le 8 f (omega arith)) in
    ground (
      arith,
      read,
      length-append (buf ++ to_le 8 f) rest,
      length-append buf (to_le 8 f),
      length-to_le 8 f,
    )
decode-encode_value (str s) buf rest (h, u) =
    rw (decode-encode_varlen buf s rest h, u)
      (ap (λ n. ok (str s, n)) (length-encode_varlen buf s h))
decode-encode_value (bytes b) buf rest h =
    rw (decode-encode_varlen buf b rest h)
      (ap (λ n. ok (bytes b, n)) (length-encode_varlen buf b h))
decode-encode_value (timestamp v) buf rest h =
    rw
      (
        decode-encode_varint buf rest (zigzag_encode v) (IsU64-zigzag_encode v h),
        decode-encode_zigzag v h,
      )
      refl

push_fields-append :
    (fields : List (ℕ × Value)) (buf : Bytes)
    → push_fields buf fields ≡ buf ++ push_fields [] fields
unfolding push_fields
push_fields-append [] buf = sym (append-nil buf)
push_fields-append ((fid, v) ∷ fields) buf =
    rw
      (
        push_fields-append fields (encode_value v ((buf ++ to_le 2 fid) ++ (type_tag v ∷ []))),
        push_fields-append fields (encode_value v (([] ++ to_le 2 fid) ++ (type_tag v ∷ []))),
        encode_value-append v ((buf ++ to_le 2 fid) ++ (type_tag v ∷ [])),
        encode_value-append v (to_le 2 fid ++ (type_tag v ∷ [])),
        append_assoc,
        append_assoc,
        append_assoc,
        append_assoc,
        append_assoc,
      )
      refl

-- The number of a field and its tag, in front of what follows.
abbrev header : Bytes → ℕ → ℕ → Bytes
header buf fid tag = (buf ++ to_le 2 fid) ++ (tag ∷ [])

module _ (buf after : Bytes) (fid tag : ℕ) where
  length-header : length (header buf fid tag) ≡ length buf + 3
  length-header = rw (length-append, length-append, length-to_le) (omega arith)

  field_read :
      fid < 2 ^ 16
      → from_le (slice (header buf fid tag ++ after) (length buf) (length buf + 2)) ≡ fid
  field_read h =
      rw
        (
          append_assoc (buf ++ to_le 2 fid) (tag ∷ []) after,
          append_assoc buf (to_le 2 fid) (tag ∷ after),
          slice_middle buf (to_le 2 fid) (tag ∷ after) (length buf) (length buf + 2) refl
              (omega (arith, length-to_le 2 fid)),
        )
        (from_le-to_le 2 fid (omega arith))

  tag_read : byte_at (header buf fid tag ++ after) (length buf + 2) ≡ ok tag
  tag_read =
      let e : length (buf ++ to_le 2 fid) ≡ length buf + 2 =
        rw (length-append, length-to_le) refl in
      let got : get_elem? (header buf fid tag ++ after) (length buf + 2) ≡ some tag =
        rw (← e, append_assoc (buf ++ to_le 2 fid) (tag ∷ []) after)
          (get_elem?-middle (buf ++ to_le 2 fid) after tag) in
      ground (arith, got)

  header_fits : ltb (length (header buf fid tag ++ after)) (length buf + 3) ≡ false
  header_fits = ground (arith, length-append (header buf fid tag) after, length-header)

read-push_fields :
    (fields : List (ℕ × Value)) (buf rest : Bytes)
    → All (λ (f : ℕ × Value). (f.0 < 2 ^ 16) × IsFit f.1) fields
    → read_fields (length fields) (push_fields buf fields ++ rest) (length buf) ≡ ok fields
unfolding push_fields read_fields
read-push_fields [] buf rest h = refl
read-push_fields ((fid, v) ∷ fields) buf rest ((hf, hv), hs) =
    let head = header buf fid (type_tag v) in
    let next = encode_value v head in
    let after = encode_value v [] ++ (push_fields [] fields ++ rest) in
    let whole : push_fields next fields ++ rest ≡ head ++ after =
      rw (push_fields-append fields next, encode_value-append v head, append_assoc, append_assoc)
        refl in
    let value : decode_value (type_tag v) (head ++ after) (length buf + 3) ≡ ok (v, length next) =
      let joined : encode_value v head ++ (push_fields [] fields ++ rest) ≡ head ++ after =
        rw (encode_value-append v head) (append_assoc head _ _) in
      let read = decode-encode_value v head (push_fields [] fields ++ rest) hv in
      let at = length-header buf after fid (type_tag v) in cc in
    rw
      (
        whole,
        header_fits buf after fid (type_tag v),
        field_read buf after fid (type_tag v) hf,
        tag_read buf after fid (type_tag v),
        value,
      )
      (rw (← whole, read-push_fields fields next rest hs) refl)

-- A document whose fields are below 2^32 in number, with field ids of 16 bits, strings below 2^32
-- bytes and texts in UTF-8, is read back as it was written, whatever stands behind it in the buffer.
pub decode-encode_document :
    (docid : ℕ) (fields : List (ℕ × Value)) (rest : Bytes)
    → IsU64 docid
    → IsU32 (length fields)
    → All (λ (f : ℕ × Value). (f.0 < 2 ^ 16) × IsFit f.1) fields
    → decode_document (encode_document [] docid fields ++ rest) ≡ ok (docid, fields)
unfolding decode_document encode_document
decode-encode_document docid fields rest hd hn hf =
    let head = to_le 8 docid ++ to_le 4 (length fields) in
    let after = push_fields [] fields ++ rest in
    let whole : push_fields head fields ++ rest ≡ head ++ after =
      rw (push_fields-append fields head) (append_assoc head _ _) in
    let id : from_le (slice (head ++ after) 0 8) ≡ docid =
      rw
        (
          append_assoc,
          slice_middle [] (to_le 8 docid) (to_le 4 (length fields) ++ after) 0 8 refl
              (omega (arith, length-to_le 8 docid)),
        )
        (from_le-to_le 8 docid hd) in
    let count : from_le (slice (head ++ after) 8 12) ≡ length fields =
      rw
        (
          append_assoc,
          slice_middle (to_le 8 docid) (to_le 4 (length fields)) after 8 12
              (omega (arith, length-to_le 8 docid)) (omega (arith, length-to_le 4 (length fields))),
        )
        (from_le-to_le 4 (length fields) hn) in
    let at : length head ≡ 12 = rw (length-append, length-to_le, length-to_le) refl in
    let fits : ltb (length (head ++ after)) 12 ≡ false = ground (arith, length-append head after) in
    let read : read_fields (length fields) (head ++ after) 12 ≡ ok fields =
      rw (← whole, ← at) (read-push_fields fields head rest hf) in
    rw (mod-eq_of_lt hn, whole, fits, count, id, read) refl
