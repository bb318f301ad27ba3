-- ===== src/Tests/ReplicationRuns.antt =====
-- A master with one slave.
use Prim.Native.String.{String}
use shanshui_cunji.Prelude.{◌≡◌, ◌<◌, refl, [], ◌∷◌, true, some, none, arith, Mem}
use shanshui_cunji.Errors.{ok}
use shanshui_cunji.Replication.{
  ReplEntry, ReplicationLog, SlaveCall, last_seq, open_log, append, push_pending, pending, tail_seq,
}
use shanshui_cunji.Replication.Push.{with_log, push_drains, drained_stuck, opened_stuck}

-- The slave applies everything.
abbrev slave : SlaveCall
slave addr entries = ok (last_seq entries)

abbrev empty_log : ReplicationLog
empty_log = record { file = none; entries = []; pushed_seq = 0 }

abbrev put_7 : ReplEntry
put_7 = record { seq = 1; op = "put"; docid = 7; json = "{}"; terms = [] }

abbrev one_entry : ReplicationLog
one_entry = record { file = some (put_7 ∷ []); entries = put_7 ∷ []; pushed_seq = 0 }

first_write : append true "put" 7 "{}" [] empty_log ≡ (ok 1, one_entry)
unfolding append
first_write = refl

acks_tail : (a : String) → Mem a ("s1" ∷ []) → slave a one_entry.entries ≡ ok (tail_seq one_entry)
unfolding tail_seq
acks_tail a h = refl

ahead : one_entry.pushed_seq < tail_seq one_entry
unfolding tail_seq
ahead = omega arith

push_drains_example :
    ((push_pending true slave (with_log "async" "s1" [] one_entry)).0 ≡ ok 1)
    × (pending (push_pending true slave (with_log "async" "s1" [] one_entry)).1.log ≡ [])
    × ((push_pending true slave (with_log "async" "s1" [] one_entry)).1.log.pushed_seq
        ≡ tail_seq one_entry)
push_drains_example =
    push_drains true slave one_entry "async" "s1" [] put_7 [] refl (omega arith, tt) ahead acks_tail

abbrev drained_log : ReplicationLog
drained_log = record { file = some []; entries = []; pushed_seq = 5 }

acks_one :
    (a : String)
    → Mem a ("s1" ∷ [])
    → slave a (append true "put" 7 "{}" [] drained_log).1.entries ≡ ok 1
unfolding append
acks_one a h = refl

drained_stuck_example :
    ((append true "put" 7 "{}" [] drained_log).0 ≡ ok 1)
    × (push_pending true slave
          (with_log "async" "s1" [] (append true "put" 7 "{}" [] drained_log).1)
        ≡ (ok 1, with_log "async" "s1" [] (append true "put" 7 "{}" [] drained_log).1))
drained_stuck_example =
    drained_stuck true slave drained_log "async" "s1" [] "put" 7 "{}" [] refl (omega arith) acks_one

acks_opened : (a : String) → Mem a ("s1" ∷ []) → slave a (put_7 ∷ []) ≡ ok (last_seq (put_7 ∷ []))
acks_opened a h = refl

opened_stuck_example :
    push_pending true slave (with_log "async" "s1" [] (open_log (some (put_7 ∷ []))))
    ≡ (ok 1, with_log "async" "s1" [] (open_log (some (put_7 ∷ []))))
opened_stuck_example = opened_stuck true slave "async" "s1" [] put_7 [] acks_opened
