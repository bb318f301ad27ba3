-- ===== src/DocidAlloc/Codec.antt =====
-- The two parts of a document id.
use shanshui_cunji.Prelude.{ℕ, ◌+◌, ◌*◌, ◌^◌, ◌<◌, ◌≡◌, arith}
use shanshui_cunji.Bytes.Bits.{bit_or_field, bit_and_mask}
use shanshui_cunji.DocidAlloc.{encode, shard_of, local_of, local_capacity}

pub encode_lem :
    (shard_id local_id : ℕ)
    → shard_id < 2 ^ 16
    → local_id < local_capacity
    → encode shard_id local_id ≡ shard_id * local_capacity + local_id
unfolding encode
encode_lem shard_id local_id hs hl = ground (arith, bit_or_field 40 shard_id local_id hl)

-- A shard number below 2^16 and a local number below 2^40 are read back from the id they make.
pub parts-encode :
    (shard_id local_id : ℕ)
    → shard_id < 2 ^ 16
    → local_id < local_capacity
    → (shard_of (encode shard_id local_id) ≡ shard_id)
      × (local_of (encode shard_id local_id) ≡ local_id)
unfolding shard_of local_of
parts-encode shard_id local_id hs hl =
    rw (encode_lem shard_id local_id hs hl)
      (omega arith, omega (arith, bit_and_mask 40 (shard_id * 2 ^ 40 + local_id)))
