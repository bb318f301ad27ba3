-- ===== src/Bloom/Members.antt =====
-- Every key that was inserted is found.
use Prim.Native.Nat.{bit_and, bit_or}
use native.Mathlib.Nat.{mod-lt}
use shanshui_cunji.Prelude.{
  ℕ, zero, suc, ◌+◌, ◌*◌, ◌/◌, ◌%◌, ◌^◌, ◌≤◌, ◌<◌, ◌≡◌, refl, ◌∙◌, true, List, [], ◌∷◌, ◌++◌, ◌==◌,
  if◌then◌else◌, arith, length, length-set, length-replicate, max, min, ◌-◌, get_elem?,
  get_elem?-set, get_elem?-some, Bool-cases, inl, inr,
}
use shanshui_cunji.Bytes.SingleBit.{bit_kept, bit_set}
use shanshui_cunji.Bloom.{
  BloomFilter, num_hashes, bit_at, word, set_bit, has_bit, set_bits, insert_key, has_bits,
  maybe_contains, with_estimated_keys,
}

-- There are bits, and a word for each.
pub record IsRoomy (f : BloomFilter) : Type 0 where
  pub some_bits : 0 < f.num_bits
  pub words : f.num_bits ≤ 64 * length f.bits

has_bit-pos :
    (bits : List ℕ) (c : ℕ)
    → has_bit bits c ≡ true
    → 0 < bit_and (word (get_elem? bits (c / 64))) (2 ^ (c % 64))
unfolding has_bit
has_bit-pos bits c h = ground arith

pos-has_bit :
    (bits : List ℕ) (c : ℕ)
    → 0 < bit_and (word (get_elem? bits (c / 64))) (2 ^ (c % 64))
    → has_bit bits c ≡ true
unfolding has_bit
pos-has_bit bits c h = ground arith

-- The words after a bit was set.
word-set_bit :
    (bits : List ℕ) (b k : ℕ)
    → b / 64 < length bits
    → word (get_elem? (set_bit bits b) k) ≡ (
        if b / 64 == k
        then bit_or (word (get_elem? bits k)) (2 ^ (b % 64))
        else word (get_elem? bits k))
unfolding set_bit
word-set_bit bits b k h =
    let w = bit_or (word (get_elem? bits (b / 64))) (2 ^ (b % 64)) in
    let (old, e) = get_elem?-some bits (b / 64) h in
    ground (arith, get_elem?-set bits (b / 64) k w, e)

set_bit_keeps :
    (bits : List ℕ) (b c : ℕ)
    → b / 64 < length bits
    → has_bit bits c ≡ true
    → has_bit (set_bit bits b) c ≡ true
set_bit_keeps bits b c h old =
    let w = word (get_elem? bits (c / 64)) in
    pos-has_bit (set_bit bits b) c (
      rw (word-set_bit bits b (c / 64) h) (elim (Bool-cases (b / 64 == c / 64)) [
        | inl same ↦ rw same (bit_kept (c % 64) w (2 ^ (b % 64)) (has_bit-pos bits c old))
        | inr other ↦ rw other (has_bit-pos bits c old)
      ]))

set_bit_sets : (bits : List ℕ) (b : ℕ) → b / 64 < length bits → has_bit (set_bit bits b) b ≡ true
set_bit_sets bits b h =
    let same : (b / 64 == b / 64) ≡ true = ground arith in
    pos-has_bit (set_bit bits b) b (
      rw (word-set_bit bits b (b / 64) h, same) (bit_set (b % 64) (word (get_elem? bits (b / 64)))))

module _ (f : BloomFilter) (room : IsRoomy f) where
  bit_at_in_room : (h : ℕ × ℕ) (i : ℕ) → bit_at f h i / 64 < length f.bits
  unfolding bit_at
  bit_at_in_room (h1, h2) i =
      let low : (h1 + h2 * i % 2 ^ 64) % 2 ^ 64 % f.num_bits < f.num_bits =
        mod-lt ((h1 + h2 * i % 2 ^ 64) % 2 ^ 64) room.some_bits in
      omega (arith, room.words)

  length-set_bits : (h : ℕ × ℕ) (n : ℕ) → length (set_bits f h n) ≡ length f.bits
  unfolding set_bits set_bit
  length-set_bits h zero = refl
  length-set_bits h (suc n) = length-set (set_bits f h n) _ _ ∙ length-set_bits h n

  in_room : (h : ℕ × ℕ) (n i : ℕ) → bit_at f h i / 64 < length (set_bits f h n)
  in_room h n i = rw (length-set_bits h n) (bit_at_in_room h i)

  set_bits_keeps :
      (h : ℕ × ℕ) (n c : ℕ) → has_bit f.bits c ≡ true → has_bit (set_bits f h n) c ≡ true
  unfolding set_bits
  set_bits_keeps h zero c old = old
  set_bits_keeps h (suc n) c old =
      set_bit_keeps (set_bits f h n) (bit_at f h n) c (in_room h n n) (set_bits_keeps h n c old)

  set_bits_sets :
      (h : ℕ × ℕ) (n : ℕ) (i : ℕ) → i < n → has_bit (set_bits f h n) (bit_at f h i) ≡ true
  unfolding set_bits
  set_bits_sets h zero i lt = absurd (omega arith)
  set_bits_sets h (suc n) i lt = elim (Bool-cases (i == n)) [
    | inl last ↦
        let e : i ≡ n = ground arith in
        rw e (set_bit_sets (set_bits f h n) (bit_at f h n) (in_room h n n))
    | inr earlier ↦
        set_bit_keeps (set_bits f h n) (bit_at f h n) (bit_at f h i) (in_room h n n)
          (set_bits_sets h n i (ground arith))
  ]

  has_bits-set_bits :
      (h : ℕ × ℕ) (k n : ℕ)
      → n ≤ k
      → has_bits (record f { bits = set_bits f h k; inserted = f.inserted + 1 }) h n ≡ true
  unfolding has_bits bit_at
  has_bits-set_bits (h1, h2) k zero le = refl
  has_bits-set_bits (h1, h2) k (suc n) le =
      rw (has_bits-set_bits (h1, h2) k n (omega arith)) (set_bits_sets (h1, h2) k n (omega arith))

  has_bits_kept :
      (h other : ℕ × ℕ) (k n : ℕ)
      → has_bits f other n ≡ true
      → has_bits (record f { bits = set_bits f h k; inserted = f.inserted + 1 }) other n ≡ true
  unfolding has_bits bit_at
  has_bits_kept h (h1, h2) k zero old = refl
  has_bits_kept h (h1, h2) k (suc n) old =
      let before : has_bits f (h1, h2) n ≡ true = unfold has_bits in ground arith in
      let here : has_bit f.bits (bit_at f (h1, h2) n) ≡ true =
        unfold has_bits bit_at in ground arith in
      rw (has_bits_kept h (h1, h2) k n before) (set_bits_keeps h k (bit_at f (h1, h2) n) here)

pub with_estimated_keys-IsRoomy :
    (bits_per_key expected_keys : ℕ) → IsRoomy (with_estimated_keys bits_per_key expected_keys)
unfolding with_estimated_keys
with_estimated_keys-IsRoomy bits_per_key expected_keys =
    let n = max (min (expected_keys * bits_per_key) (2 ^ 64 - 1)) 64 in
    record {
      some_bits = omega arith;
      words = omega (arith, length-replicate {A = ℕ} ((n + 63) / 64) 0);
    }

module _ {K : Type 0} (double_hash : K → ℕ × ℕ) where
  -- The filter after inserting the keys one by one.
  unfoldable pub insert_all : BloomFilter → List K → BloomFilter
  insert_all f [] = f
  insert_all f (key ∷ keys) = insert_all (insert_key double_hash f key) keys

  insert_key-IsRoomy :
      (f : BloomFilter) (key : K) → IsRoomy f → IsRoomy (insert_key double_hash f key)
  unfolding insert_key
  insert_key-IsRoomy f key room = record {
    some_bits = room.some_bits;
    words = omega (arith, length-set_bits f room (double_hash key) num_hashes, room.words);
  }

  insert_all-IsRoomy : (keys : List K) (f : BloomFilter) → IsRoomy f → IsRoomy (insert_all f keys)
  unfolding insert_all
  insert_all-IsRoomy [] f room = room
  insert_all-IsRoomy (k ∷ ks) f room =
      insert_all-IsRoomy ks (insert_key double_hash f k) (insert_key-IsRoomy f k room)

  kept_by_all :
      (keys : List K) (f : BloomFilter) (key : K)
      → IsRoomy f
      → maybe_contains double_hash f key ≡ true
      → maybe_contains double_hash (insert_all f keys) key ≡ true
  unfolding insert_all
  kept_by_all [] f key room old = old
  kept_by_all (k ∷ ks) f key room old =
      kept_by_all ks (insert_key double_hash f k) key (insert_key-IsRoomy f k room) (
        unfold maybe_contains insert_key in
        has_bits_kept f room (double_hash k) (double_hash key) num_hashes num_hashes old)

  -- A key that was inserted may be contained, whatever was inserted before it and after it, for every
  -- hash function and every filter with bits and a word for each.
  pub maybe_contains-inserted :
      (before after : List K) (f : BloomFilter) (key : K)
      → IsRoomy f
      → maybe_contains double_hash (insert_all f (before ++ (key ∷ after))) key ≡ true
  unfolding insert_all
  maybe_contains-inserted [] after f key room =
      kept_by_all after (insert_key double_hash f key) key (insert_key-IsRoomy f key room) (
        unfold maybe_contains insert_key in
        has_bits-set_bits f room (double_hash key) num_hashes num_hashes (omega arith))
  maybe_contains-inserted (k ∷ before) after f key room =
      maybe_contains-inserted before after (insert_key double_hash f k) key
        (insert_key-IsRoomy f k room)
