-- ===== src/Bloom.antt =====
-- src/bloom.rs: the Bloom filter. The two hashes that Rust's `DefaultHasher` gives a key are an argument,
-- and so is the number of bits for a key, which is computed with floating-point numbers.
pub mod Members
pub mod RoundTrip
use Prim.Native.Nat.{bit_and, bit_or}
use shanshui_cunji.Bytes.{Bytes, to_le, from_le}
use shanshui_cunji.Prelude.{
  ltb, length, take, drop, slice, ◌++◌, ℕ, zero, suc, ◌+◌, ◌-◌, ◌*◌, ◌/◌, ◌%◌, ◌^◌, Bool, true, not,
  ◌&&◌, Option, none, some, List, [], ◌∷◌, ◌==◌, max, min, if◌then◌else◌, replicate, get_elem?, set,
}

abbrev pub num_hashes : ℕ
num_hashes = 7

pub record BloomFilter : Type 0 where
  pub bits : List ℕ
  pub num_bits : ℕ
  pub inserted : ℕ

-- `saturating_mul` stops at the largest `usize`.
unfoldable pub with_estimated_keys : ℕ → ℕ → BloomFilter
with_estimated_keys bits_per_key expected_keys =
    let num_bits = max (min (expected_keys * bits_per_key) (2 ^ 64 - 1)) 64 in
    record { bits = replicate ((num_bits + 63) / 64) 0; num_bits = num_bits; inserted = 0 }

-- The bit that the hash function number `i` gives a key.
unfoldable pub bit_at : BloomFilter → ℕ × ℕ → ℕ → ℕ
bit_at f (h1, h2) i = (h1 + h2 * i % 2 ^ 64) % 2 ^ 64 % f.num_bits

-- A word out of range, where the source panics, reads as no word; `IsRoomy` rules it out.
abbrev pub word : Option ℕ → ℕ
word none = 0
word (some w) = w

unfoldable pub set_bit : List ℕ → ℕ → List ℕ
set_bit bits bit = set bits (bit / 64) (bit_or (word (get_elem? bits (bit / 64))) (2 ^ (bit % 64)))

unfoldable pub has_bit : List ℕ → ℕ → Bool
has_bit bits bit = not (bit_and (word (get_elem? bits (bit / 64))) (2 ^ (bit % 64)) == 0)

-- `for i in 0..n`
unfoldable pub set_bits : BloomFilter → ℕ × ℕ → ℕ → List ℕ
set_bits f h zero = f.bits
set_bits f h (suc i) = set_bit (set_bits f h i) (bit_at f h i)

unfoldable pub insert_key {ℓ} : {K : Type ℓ} → (K → ℕ × ℕ) → BloomFilter → K → BloomFilter
unfolding set_bits
insert_key double_hash f key = record f {
  bits = set_bits f (double_hash key) num_hashes;
  inserted = f.inserted + 1;
}

unfoldable pub has_bits : BloomFilter → ℕ × ℕ → ℕ → Bool
has_bits f h zero = true
has_bits f h (suc i) = has_bits f h i && has_bit f.bits (bit_at f h i)

unfoldable pub maybe_contains {ℓ} : {K : Type ℓ} → (K → ℕ × ℕ) → BloomFilter → K → Bool
unfolding has_bits
maybe_contains double_hash f key = has_bits f (double_hash key) num_hashes

unfoldable pub words_bytes : List ℕ → Bytes
words_bytes [] = []
words_bytes (w ∷ ws) = to_le 8 w ++ words_bytes ws

unfoldable pub to_bytes : BloomFilter → Bytes
to_bytes f = to_le 8 f.num_bits ++ (to_le 8 f.inserted ++ words_bytes f.bits)

-- The words at the bytes from offset 16 on.
unfoldable pub read_words : ℕ → Bytes → List ℕ
read_words zero bytes = []
read_words (suc n) bytes = from_le (take 8 bytes) ∷ read_words n (drop 8 bytes)

unfoldable pub from_bytes : Bytes → Option BloomFilter
unfolding read_words
from_bytes bytes =
    let num_bits = from_le (slice bytes 0 8) in
    let need = (num_bits + 63) / 64 in
    let f : BloomFilter = record {
      bits = read_words need (drop 16 bytes);
      num_bits = num_bits;
      inserted = from_le (slice bytes 8 16);
    } in
    if ltb (length bytes) 16 then none else if length bytes == 16 + need * 8 then some f else none
