-- ===== src/Wal/Replay.antt =====
-- One round of the replay, at a frame that is whole and at one that is cut off.
use shanshui_cunji.Prelude.{
  ℕ, zero, suc, ◌+◌, ◌-◌, ◌%◌, ◌^◌, ◌≤◌, ◌<◌, ◌≡◌, refl, sym, ap, ◌∙◌, true, false, not, List, [],
  ◌∷◌, ◌++◌, arith, append_assoc, ltb, ◌==◌, ==_refl, if◌then◌else◌, length, length-append, take,
  drop, take-append, drop-append, slice, slice_middle, Bool-cases, inl, inr,
}
use shanshui_cunji.Bytes.{Bytes, IsU32, to_le, from_le}
use shanshui_cunji.Bytes.Laws.{length-to_le, from_le-to_le}
use shanshui_cunji.Wal.{frame, crc32, decode_payload, keep_record, replay}

pub take_short {ℓ} :
    {A : Type ℓ} (n : ℕ) (xs ys : List A) → n ≤ length xs → take n (xs ++ ys) ≡ take n xs
take_short zero xs ys h = refl
take_short (suc n) [] ys h = absurd (omega arith)
take_short (suc n) (x ∷ xs) ys h = ap (λ r. x ∷ r) (take_short n xs ys (omega arith))

pub take_past {ℓ} :
    {A : Type ℓ} (xs ys : List A) (m : ℕ) → take (length xs + m) (xs ++ ys) ≡ xs ++ take m ys
take_past [] ys m = let z : 0 + m ≡ m = omega arith in rw z refl
take_past (x ∷ xs) ys m =
    let n : length (x ∷ xs) + m ≡ suc (length xs + m) = omega arith in
    rw n (ap (λ r. x ∷ r) (take_past xs ys m))

pub length-take-le {ℓ} : {A : Type ℓ} (n : ℕ) (xs : List A) → length (take n xs) ≤ n
length-take-le zero xs = omega arith
length-take-le (suc n) [] = omega arith
length-take-le (suc n) (x ∷ xs) = omega (arith, length-take-le n xs)

crc32-lt : (data' : Bytes) → crc32 data' < 2 ^ 32
unfolding crc32
crc32-lt data' = omega arith

module _ (payload : Bytes) (h : IsU32 (length payload)) where
  abbrev pub prefix : Bytes
  prefix = to_le 4 (length payload) ++ to_le 4 (crc32 payload)

  pub length-prefix : length prefix ≡ 8
  length-prefix = omega (
    arith,
    length-append (to_le 4 (length payload)) (to_le 4 (crc32 payload)),
    length-to_le 4 (length payload),
    length-to_le 4 (crc32 payload),
  )

  pub frame-prefix : frame payload ≡ prefix ++ payload
  unfolding frame
  frame-prefix =
      let small : length payload % 2 ^ 32 ≡ length payload = omega arith in
      rw small (sym (append_assoc (to_le 4 (length payload)) (to_le 4 (crc32 payload)) payload))

  pub length_read : (body : Bytes) → from_le (slice (prefix ++ body) 0 4) ≡ length payload
  length_read body =
      rw
        (
          append_assoc,
          slice_middle [] (to_le 4 (length payload)) (to_le 4 (crc32 payload) ++ body) 0 4 refl
              (omega (arith, length-to_le 4 (length payload))),
        )
        (from_le-to_le 4 (length payload) (omega arith))

  pub crc_read : (body : Bytes) → from_le (slice (prefix ++ body) 4 8) ≡ crc32 payload
  crc_read body =
      rw
        (
          append_assoc,
          slice_middle (to_le 4 (length payload)) (to_le 4 (crc32 payload)) body 4 8
              (omega (arith, length-to_le 4 (length payload)))
              (omega (arith, length-to_le 4 (crc32 payload))),
        )
        (from_le-to_le 4 (crc32 payload) (omega (arith, crc32-lt payload)))

  body_read : (body : Bytes) → drop 8 (prefix ++ body) ≡ body
  body_read body = rw length-prefix at (drop-append prefix body)

  -- One round of the replay at a prefix that was written for the payload.
  pub replay-prefix :
      (fuel : ℕ) (body : Bytes)
      → replay (suc fuel) (prefix ++ body) ≡ (
          if ltb (length body) (length payload)
          then []
          else if not (crc32 (take (length payload) body) == crc32 payload)
          then []
          else keep_record
              (decode_payload (take (length payload) body))
              (replay fuel (drop (length payload) body)))
  unfolding replay
  replay-prefix fuel body =
      let long : ltb (length (prefix ++ body)) 8 ≡ false =
        ground (arith, length-append prefix body, length-prefix) in
      rw (long, length_read body, crc_read body, body_read body) refl

  pub replay-frame :
      (fuel : ℕ) (rest : Bytes)
      → replay (suc fuel) (frame payload ++ rest)
        ≡ keep_record (decode_payload payload) (replay fuel rest)
  replay-frame fuel rest =
      let long : ltb (length (payload ++ rest)) (length payload) ≡ false =
        ground (arith, length-append payload rest) in
      rw
        (
          frame-prefix,
          append_assoc prefix payload rest,
          replay-prefix fuel (payload ++ rest),
          long,
          take-append payload rest,
          drop-append payload rest,
          ==_refl (crc32 payload),
        )
        refl

  pub length-frame : length (frame payload) ≡ 8 + length payload
  length-frame = rw frame-prefix (omega (arith, length-append prefix payload, length-prefix))

  -- A frame that is cut off is not read, and nothing behind it.
  pub replay_cut_frame :
      (fuel n : ℕ) (rest : Bytes)
      → n < 8 + length payload
      → replay fuel (take n (frame payload ++ rest)) ≡ []
  replay_cut_frame zero n rest hn = unfold replay in refl
  replay_cut_frame (suc fuel) n rest hn =
      rw (take_short n (frame payload) rest (omega (arith, length-frame)), frame-prefix)
        (elim (Bool-cases (ltb n 8)) [
          | inl short ↦
              let few : ltb (length (take n (prefix ++ payload))) 8 ≡ true =
                ground (arith, length-take-le n (prefix ++ payload)) in
              unfold replay in rw few refl
          | inr long ↦
              let split : n ≡ length prefix + (n - 8) = ground (arith, length-prefix) in
              let few : ltb (length (take (n - 8) payload)) (length payload) ≡ true =
                ground (arith, length-take-le (n - 8) payload) in
              (ap (λ (k : ℕ). replay (suc fuel) (take k (prefix ++ payload))) split
                ∙ rw
                    (
                      take_past prefix payload (n - 8),
                      replay-prefix fuel (take (n - 8) payload),
                      few,
                    )
                    refl)
        ])
