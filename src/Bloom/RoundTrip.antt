-- ===== src/Bloom/RoundTrip.antt =====
-- A filter that is written as bytes and read again.
use shanshui_cunji.Prelude.{
  ℕ, ◌+◌, ◌*◌, ◌/◌, ◌≡◌, refl, true, false, some, List, [], ◌∷◌, ◌++◌, arith, length, length-append,
  take, drop, take-append, drop-append, slice, slice_middle, append_assoc, All, ltb, ◌==◌,
}
use shanshui_cunji.Bytes.{IsU64, to_le, from_le}
use shanshui_cunji.Bytes.Laws.{length-to_le, from_le-to_le}
use shanshui_cunji.Bloom.{BloomFilter, words_bytes, to_bytes, read_words, from_bytes}

length-words_bytes : (ws : List ℕ) → length (words_bytes ws) ≡ length ws * 8
unfolding words_bytes
length-words_bytes [] = omega arith
length-words_bytes (w ∷ ws) =
    omega
      (arith, length-append (to_le 8 w) (words_bytes ws), length-to_le 8 w, length-words_bytes ws)

read_words-words_bytes : (ws : List ℕ) → All IsU64 ws → read_words (length ws) (words_bytes ws) ≡ ws
unfolding read_words words_bytes
read_words-words_bytes [] h = refl
read_words-words_bytes (w ∷ ws) (h, hs) =
    let front : take 8 (to_le 8 w ++ words_bytes ws) ≡ to_le 8 w =
      rw (length-to_le 8 w) at (take-append (to_le 8 w) (words_bytes ws)) in
    let back : drop 8 (to_le 8 w ++ words_bytes ws) ≡ words_bytes ws =
      rw (length-to_le 8 w) at (drop-append (to_le 8 w) (words_bytes ws)) in
    rw (front, back, from_le-to_le 8 w (omega arith), read_words-words_bytes ws hs) refl

-- A filter whose counts and words are below 2^64, with one word for every 64 bits begun, is read back
-- from its bytes unchanged.
pub from_bytes-to_bytes :
    (f : BloomFilter)
    → IsU64 f.num_bits
    → IsU64 f.inserted
    → All IsU64 f.bits
    → length f.bits ≡ (f.num_bits + 63) / 64
    → from_bytes (to_bytes f) ≡ some f
unfolding from_bytes to_bytes
from_bytes-to_bytes f hn hi hw exact =
    let n = to_le 8 f.num_bits in
    let i = to_le 8 f.inserted in
    let ws = words_bytes f.bits in
    let bits_read : from_le (slice (n ++ (i ++ ws)) 0 8) ≡ f.num_bits =
      rw (slice_middle [] n (i ++ ws) 0 8 refl (omega (arith, length-to_le 8 f.num_bits)))
        (from_le-to_le 8 f.num_bits (omega arith)) in
    let count_read : from_le (slice (n ++ (i ++ ws)) 8 16) ≡ f.inserted =
      rw
        (slice_middle n i ws 8 16 (omega (arith, length-to_le 8 f.num_bits))
          (omega (arith, length-to_le 8 f.inserted)))
        (from_le-to_le 8 f.inserted (omega arith)) in
    let head : length (n ++ i) ≡ 16 =
      omega (arith, length-append n i, length-to_le 8 f.num_bits, length-to_le 8 f.inserted) in
    let body : drop 16 (n ++ (i ++ ws)) ≡ ws =
      rw (head, append_assoc) at (drop-append (n ++ i) ws) in
    let words_read : read_words ((f.num_bits + 63) / 64) ws ≡ f.bits =
      rw exact at (read_words-words_bytes f.bits hw) in
    let size : length (n ++ (i ++ ws)) ≡ 16 + (f.num_bits + 63) / 64 * 8 = omega (
      arith,
      length-append n (i ++ ws),
      length-append i ws,
      length-to_le 8 f.num_bits,
      length-to_le 8 f.inserted,
      length-words_bytes f.bits,
      exact,
    ) in
    let long : ltb (length (n ++ (i ++ ws))) 16 ≡ false = ground (arith, size) in
    let fits : (length (n ++ (i ++ ws)) == 16 + (f.num_bits + 63) / 64 * 8) ≡ true =
      ground (arith, size) in
    rw (long, bits_read, fits, count_read, body, words_read) refl
