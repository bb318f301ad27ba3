-- ===== src/Tests/AllocRuns.antt =====
-- An allocator of two shards.
use shanshui_cunji.Prelude.{ℕ, zero, suc, Distinct, ◌≡◌, ◌<◌, ◌+◌, ◌^◌, refl, [], ◌∷◌, arith}
use shanshui_cunji.Errors.{ok, err, unsupported}
use shanshui_cunji.DocidAlloc.{DocIdAllocator, encode, alloc, from_watermarks, alloc_local}
use shanshui_cunji.DocidAlloc.Issue.{next_of, issued, issued-Distinct}
use shanshui_cunji.DocidAlloc.Recovery.{from_watermarks_full}

abbrev two_shards : DocIdAllocator
two_shards = record { shards = (record { next = 3 }) ∷ (record { next = 0 }) ∷ [] }

first_id : (alloc two_shards 1).0 ≡ ok 1099511627776
unfolding alloc alloc_local encode
first_id = refl

three_ids : issued two_shards (0 ∷ 1 ∷ 0 ∷ []) ≡ 3 ∷ 1099511627776 ∷ 4 ∷ []
unfolding issued alloc alloc_local encode
three_ids = refl

no_wrap_within : (s : ℕ) → next_of two_shards s + 3 < 2 ^ 64
unfolding next_of
no_wrap_within zero = omega arith
no_wrap_within (suc zero) = omega arith
no_wrap_within (suc (suc s)) = omega arith

issued-Distinct_example : Distinct (issued two_shards (0 ∷ 1 ∷ 0 ∷ []))
issued-Distinct_example =
    issued-Distinct (0 ∷ 1 ∷ 0 ∷ []) two_shards (omega arith, (omega arith, (omega arith, tt)))
      (record { no_wrap = no_wrap_within })

from_watermarks_full_example : from_watermarks (3 ∷ 1099511627776 ∷ 0 ∷ []) ≡ err unsupported
from_watermarks_full_example =
    from_watermarks_full (3 ∷ []) (0 ∷ []) 1099511627776 (omega arith) (omega arith, tt)
      (omega arith)
