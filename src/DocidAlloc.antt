-- ===== src/DocidAlloc.antt =====
-- src/docid_alloc.rs: document ids with the shard number in their high bits. An atomic counter is a
-- number in the state that each call returns; `fetch_add` wraps at 2^64.
pub mod Codec
pub mod Issue
pub mod Recovery
use Prim.Native.Nat.{bit_and, bit_or}
use shanshui_cunji.Prelude.{
  ℕ, zero, suc, ◌+◌, ◌-◌, ◌*◌, ◌/◌, ◌%◌, ◌^◌, Option, none, some, List, [], ◌∷◌, ◌++◌, map, ltb,
  leb, ◌==◌, if◌then◌else◌, length, get_elem?, set, replicate,
}
use shanshui_cunji.Errors.{Result, ok, err, panic, unsupported, config, ◌>>=◌}

abbrev pub local_bits : ℕ
local_bits = 40

abbrev pub local_mask : ℕ
local_mask = 2 ^ local_bits - 1

abbrev pub local_capacity : ℕ
local_capacity = 2 ^ local_bits

unfoldable pub encode : ℕ → ℕ → ℕ
encode shard_id local_id = bit_or (shard_id * 2 ^ local_bits % 2 ^ 64) local_id

unfoldable pub shard_of : ℕ → ℕ
shard_of docid = docid / 2 ^ local_bits % 2 ^ 16

unfoldable pub local_of : ℕ → ℕ
local_of docid = bit_and docid local_mask

pub record ShardLocalAllocator : Type 0 where
  pub next : ℕ

unfoldable pub new_shard : ShardLocalAllocator
new_shard = record { next = 0 }

unfoldable pub with_start : ℕ → Result ShardLocalAllocator
with_start next = if leb local_capacity next then err unsupported else ok (record { next = next })

-- The counter moves on a refused call too.
unfoldable pub alloc_local : ShardLocalAllocator → ℕ → Result ℕ × ShardLocalAllocator
alloc_local s shard_id =
    let local_id = s.next in
    let moved = record s { next = (s.next + 1) % 2 ^ 64 } in
    (if leb local_capacity local_id then err unsupported else ok (encode shard_id local_id), moved)

unfoldable pub watermark : ShardLocalAllocator → ℕ
watermark s = s.next

pub record DocIdAllocator : Type 0 where
  pub shards : List ShardLocalAllocator

unfoldable pub new : ℕ → Result DocIdAllocator
unfolding new_shard
new n_shards =
    if n_shards == 0 then err config else ok (record { shards = replicate n_shards new_shard })

-- `alloc.shards[i] = with_start(w)?`, which panics beyond the shards made by `new`.
unfoldable pub put_shard : DocIdAllocator → ℕ → ℕ → Result DocIdAllocator
put_shard a i w = do
  s ← with_start w
  if ltb i (length a.shards) then ok (record { shards = set a.shards i s }) else panic

unfoldable pub restore_from : ℕ → List ℕ → DocIdAllocator → Result DocIdAllocator
restore_from i [] a = ok a
restore_from i (w ∷ ws) a = do a' ← put_shard a i w; restore_from (i + 1) ws a'

-- `shards.len() as u16` cuts the count.
unfoldable pub from_watermarks : List ℕ → Result DocIdAllocator
from_watermarks ws = do a ← new (length ws % 2 ^ 16); restore_from 0 ws a

unfoldable pub alloc_in :
    DocIdAllocator → ℕ → Option ShardLocalAllocator → Result ℕ × DocIdAllocator
alloc_in a shard_id none = (err unsupported, a)
alloc_in a shard_id (some s) =
    let (r, s') = alloc_local s shard_id in (r, record { shards = set a.shards shard_id s' })

-- The bounds test and the indexing are one lookup: `none` is an index past the end.
unfoldable pub alloc : DocIdAllocator → ℕ → Result ℕ × DocIdAllocator
unfolding alloc_in
alloc a shard_id = alloc_in a shard_id (get_elem? a.shards shard_id)

-- `while (len as u16) < n_shards`, on fuel for the shards to be made.
unfoldable pub resize_loop : ℕ → List ShardLocalAllocator → ℕ → List ShardLocalAllocator
resize_loop zero shards n_shards = shards
resize_loop (suc fuel) shards n_shards =
    let longer = resize_loop fuel (shards ++ (new_shard ∷ [])) n_shards in
    if ltb (length shards % 2 ^ 16) n_shards then longer else shards

unfoldable pub resize : DocIdAllocator → ℕ → DocIdAllocator
resize a n_shards = record { shards = resize_loop n_shards a.shards n_shards }

unfoldable pub shard_count : DocIdAllocator → ℕ
shard_count a = length a.shards % 2 ^ 16

unfoldable pub watermarks : DocIdAllocator → List ℕ
watermarks a = map watermark a.shards
