-- ===== src/Tests/BloomRuns.antt =====
-- A filter for numbers, with a small hash function in place of Rust's.
use shanshui_cunji.Prelude.{
  arith, some, ℕ, ◌+◌, ◌*◌, ◌%◌, ◌^◌, ◌≡◌, refl, true, false, [], ◌∷◌, ◌++◌,
}
use shanshui_cunji.Bloom.{
  BloomFilter, with_estimated_keys, insert_key, maybe_contains, bit_at, has_bit, set_bit, to_bytes,
  from_bytes,
}
use shanshui_cunji.Bloom.RoundTrip.{from_bytes-to_bytes}
use shanshui_cunji.Bloom.Members.{insert_all, with_estimated_keys-IsRoomy, maybe_contains-inserted}

abbrev mix : ℕ → ℕ × ℕ
mix n = (n * 11400714819323198485 % 2 ^ 64, n + 1)

abbrev small : BloomFilter
small = with_estimated_keys 10 20

absent : maybe_contains mix (insert_key mix small 4) 5 ≡ false
unfolding maybe_contains has_bit insert_key set_bit with_estimated_keys bit_at
absent = refl

maybe_contains-inserted_example :
    maybe_contains mix (insert_all mix small ((3 ∷ []) ++ (4 ∷ (5 ∷ [])))) 4 ≡ true
maybe_contains-inserted_example =
    maybe_contains-inserted mix (3 ∷ []) (5 ∷ []) small 4 (with_estimated_keys-IsRoomy 10 20)

from_bytes-to_bytes_example :
    from_bytes (to_bytes (record { bits = 5 ∷ 7 ∷ []; num_bits = 100; inserted = 2 }))
    ≡ some (record { bits = 5 ∷ 7 ∷ []; num_bits = 100; inserted = 2 })
from_bytes-to_bytes_example =
    from_bytes-to_bytes (record { bits = 5 ∷ 7 ∷ []; num_bits = 100; inserted = 2 }) (omega arith)
      (omega arith) (omega arith, (omega arith, tt)) (omega arith)
