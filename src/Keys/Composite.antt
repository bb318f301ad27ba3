-- ===== src/Keys/Composite.antt =====
-- Composite index keys of src/keys.rs.
use shanshui_cunji.Prelude.{
  ℕ, zero, suc, ◌+◌, ◌≤◌, ◌<◌, ◌≡◌, refl, sym, ◌∙◌, List, [], ◌∷◌, ◌++◌, arith, append-nil,
  append_assoc, length, length-append, slice, slice_middle, All,
}
use shanshui_cunji.Errors.{ok, panic}
use shanshui_cunji.Bytes.{Bytes, IsU32, IsU64, to_le, from_le, to_be, from_be}
use shanshui_cunji.Bytes.Laws.{length-to_le, length-to_be, from_be-to_be}
use shanshui_cunji.Keys.{
  decode_varlen, encode_fields, encode_composite_key, decode_fields, read_docid,
  decode_composite_key,
}
use shanshui_cunji.Keys.Varlen.{encode_varlen_lem, decode_varlen_at}

abbrev pub FitsVarlen : List Bytes → Type 0
FitsVarlen = All (λ f. IsU32 (length f))

-- The fields one after the other, each behind its length.
abbrev fields_bytes : List Bytes → Bytes
fields_bytes [] = []
fields_bytes (f ∷ fs) = (to_le 4 (length f) ++ f) ++ fields_bytes fs

encode_fields-fields_bytes :
    (buf : Bytes) (fs : List Bytes) → FitsVarlen fs → encode_fields buf fs ≡ buf ++ fields_bytes fs
unfolding encode_fields
encode_fields-fields_bytes buf [] h = sym (append-nil buf)
encode_fields-fields_bytes buf (f ∷ fs) (hf, hs) = rw (encode_varlen_lem buf f hf) (
    encode_fields-fields_bytes (buf ++ (to_le 4 (length f) ++ f)) fs hs
    ∙ append_assoc buf (to_le 4 (length f) ++ f) (fields_bytes fs))

length-fields_bytes : (fs : List Bytes) → length fs ≤ length (fields_bytes fs)
length-fields_bytes [] = omega arith
length-fields_bytes (f ∷ fs) = omega (
  arith,
  length-fields_bytes fs,
  length-append (to_le 4 (length f) ++ f) (fields_bytes fs),
  length-append (to_le 4 (length f)) f,
  length-to_le 4 (length f),
)

-- The bytes in front, one field, and what follows, regrouped for the next round.
regroup :
    (pre f tail : Bytes) (fs : List Bytes)
    → pre ++ (fields_bytes (f ∷ fs) ++ tail)
      ≡ pre ++ (to_le 4 (length f) ++ (f ++ (fields_bytes fs ++ tail)))
regroup pre f tail fs = simp append_assoc

advance :
    (pre f tail : Bytes) (fs : List Bytes)
    → pre ++ (fields_bytes (f ∷ fs) ++ tail)
      ≡ (pre ++ (to_le 4 (length f) ++ f)) ++ (fields_bytes fs ++ tail)
advance pre f tail fs = simp append_assoc

decode_fields-fields_bytes :
    (fs : List Bytes) (fuel : ℕ) (pre tail : Bytes) (acc : List Bytes)
    → FitsVarlen fs
    → length tail ≡ 8
    → length fs ≤ fuel
    → decode_fields fuel (pre ++ (fields_bytes fs ++ tail)) (length pre) acc
      ≡ ok (acc ++ fs, length pre + length (fields_bytes fs))
unfolding decode_fields
decode_fields-fields_bytes [] zero pre tail acc h ht hf = rw append-nil (ground arith)
decode_fields-fields_bytes [] (suc fuel) pre tail acc h ht hf =
    ground (arith, append-nil acc, length-append pre tail)
decode_fields-fields_bytes (f ∷ fs) zero pre tail acc h ht hf = absurd (omega arith)
decode_fields-fields_bytes (f ∷ fs) (suc fuel) pre tail acc (h, hs) ht hf =
    let next = pre ++ (to_le 4 (length f) ++ f) in
    let here =
      rw (← regroup pre f tail fs) at (decode_varlen_at pre f (fields_bytes fs ++ tail) h) in
    let later =
      rw (← advance pre f tail fs) at
        (decode_fields-fields_bytes fs fuel next tail (acc ++ (f ∷ [])) hs ht (omega arith)) in
    ground (
      arith,
      here,
      later,
      append_assoc acc (f ∷ []) fs,
      length-append pre (fields_bytes (f ∷ fs) ++ tail),
      length-append (fields_bytes (f ∷ fs)) tail,
      length-append (to_le 4 (length f) ++ f) (fields_bytes fs),
      length-append pre (to_le 4 (length f) ++ f),
      length-append (to_le 4 (length f)) f,
      length-to_le 4 (length f),
    )

read_docid_at :
    (pre : Bytes) (docid : ℕ)
    → IsU64 docid
    → read_docid (pre ++ to_be 8 docid) (length pre) ≡ ok docid
unfolding read_docid
read_docid_at pre docid h =
    let read : from_be (slice (pre ++ to_be 8 docid) (length pre) (length pre + 8)) ≡ docid =
      rw
        (rw append-nil at (
          slice_middle pre (to_be 8 docid) [] (length pre) (length pre + 8) refl
            (omega (arith, length-to_be 8 docid))))
        (from_be-to_be 8 docid (omega arith)) in
    ground (arith, read, length-append pre (to_be 8 docid), length-to_be 8 docid)

-- A composite key whose fields are below 2^32 bytes each, and whose document id is below 2^64, is
-- decoded to the fields in their order and the document id.
pub decode-encode_composite_key :
    (fields : List Bytes) (docid : ℕ)
    → FitsVarlen fields
    → IsU64 docid
    → decode_composite_key (encode_composite_key fields docid) ≡ ok (fields, docid)
unfolding decode_composite_key encode_composite_key
decode-encode_composite_key fields docid h hd =
    let tail = to_be 8 docid in
    let room = length (fields_bytes fields ++ tail) in
    rw (encode_fields-fields_bytes [] fields h) (
      ground (
        arith,
        length-append (fields_bytes fields) tail,
        length-to_be 8 docid,
        decode_fields-fields_bytes fields room [] tail [] h (length-to_be 8 docid)
            (omega (arith, length-fields_bytes fields, length-append (fields_bytes fields) tail)),
        read_docid_at (fields_bytes fields) docid hd,
      ))

-- A loop that returns fields has ended by its own test: with fuel for the bytes that are left, at most
-- eight are left then.
pub decode_fields_ends :
    (fuel : ℕ) (buf : Bytes) (pos : ℕ) (acc fields : List Bytes) (last : ℕ)
    → length buf ≤ fuel + pos
    → decode_fields fuel buf pos acc ≡ ok (fields, last)
    → length buf ≤ last + 8
unfolding decode_fields decode_varlen
decode_fields_ends zero buf pos acc fields last h e = ground arith
decode_fields_ends (suc fuel) buf pos acc fields last h e = ground (
  arith,
  decode_fields_ends fuel buf (pos + 4 + from_le (slice buf pos (pos + 4)))
      (acc ++ (slice buf (pos + 4) (pos + 4 + from_le (slice buf pos (pos + 4))) ∷ [])) fields last,
)

one_field :
    (fuel : ℕ) (value : Bytes)
    → IsU32 (length value)
    → 4 < length value
    → decode_fields (suc (suc fuel)) (to_le 4 (length value) ++ value) 0 []
      ≡ ok (value ∷ [], 4 + length value)
unfolding decode_fields
one_field fuel value h hv = ground (
  arith,
  rw append-nil at (decode_varlen_at [] value [] h),
  length-append (to_le 4 (length value)) value,
  length-to_le 4 (length value),
)

-- A buffer that holds one field of more than four bytes and no document id behind it makes the
-- decoder panic, where it should refuse the key as corrupted.
pub decode_composite_key_panics :
    (value : Bytes)
    → IsU32 (length value)
    → 4 < length value
    → decode_composite_key (to_le 4 (length value) ++ value) ≡ panic
unfolding decode_composite_key read_docid
decode_composite_key_panics value h hv =
    let size : length (to_le 4 (length value) ++ value) ≡ suc (suc (length value + 2)) =
      omega (arith, length-append (to_le 4 (length value)) value, length-to_le 4 (length value)) in
    rw size (ground (arith, one_field (length value + 2) value h hv))
