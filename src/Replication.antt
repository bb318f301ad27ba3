-- ===== src/Replication.antt =====
-- src/replication.rs: the log of writes that a master pushes to its slaves, and how a slave applies it.
-- The calls to the slaves and the engine of a slave are arguments, and so is whether a write of the log
-- file succeeds; the file holds the entries of the last one that did. JSON is taken to give back what
-- was written.
pub mod Numbers
pub mod Push
use Prim.Native.String.{String}
use text.Mathlib.Text.{◌==◌}
use shanshui_cunji.Prelude.{
  ℕ, ◌+◌, ◌%◌, ◌^◌, max, Bool, true, false, not, ◌||◌, Option, none, some, List, [], ◌∷◌, ◌++◌,
  if◌then◌else◌, ltb, leb, length, retain,
}
use shanshui_cunji.Errors.{Result, ok, err, panic, io, cluster, rpc, ◌>>=◌}

pub record ReplEntry : Type 0 where
  pub seq : ℕ
  pub op : String
  pub docid : ℕ
  pub json : String
  pub terms : List String

pub record ReplicationLog : Type 0 where
  pub file : Option (List ReplEntry)
  pub entries : List ReplEntry
  pub pushed_seq : ℕ

-- The number of the last entry, and 0 without one.
unfoldable pub last_seq : List ReplEntry → ℕ
last_seq [] = 0
last_seq (e ∷ []) = e.seq
last_seq (e ∷ (f ∷ es)) = last_seq (f ∷ es)

abbrev pub saved : Option (List ReplEntry) → List ReplEntry
saved none = []
saved (some entries) = entries

unfoldable pub open_log : Option (List ReplEntry) → ReplicationLog
unfolding last_seq
open_log file = record { file = file; entries = saved file; pushed_seq = last_seq (saved file) }

-- `w` says whether the temporary file is written and renamed.
unfoldable pub persist : Bool → ReplicationLog → Result (Unit {0}) × ReplicationLog
persist true log = (ok tt, record log { file = some log.entries })
persist false log = (err io, log)

unfoldable pub with_entry : String → ℕ → String → List String → ReplicationLog → ReplicationLog
unfolding last_seq
with_entry op docid json terms log = record log {
  entries =
      log.entries
      ++ (record {
        seq = (last_seq log.entries + 1) % 2 ^ 64;
        op = op;
        docid = docid;
        json = json;
        terms = terms;
      }
          ∷ []);
}

abbrev pub answer {ℓ} :
    {X : Type ℓ} → X → Result (Unit {0}) × ReplicationLog → Result X × ReplicationLog
answer x (ok u, log) = (ok x, log)
answer x (err e, log) = (err e, log)
answer x (panic, log) = (panic, log)

unfoldable pub append :
    Bool → String → ℕ → String → List String → ReplicationLog → Result ℕ × ReplicationLog
unfolding with_entry persist
append w op docid json terms log =
    answer ((last_seq log.entries + 1) % 2 ^ 64) (persist w (with_entry op docid json terms log))

unfoldable pub pending : ReplicationLog → List ReplEntry
pending log = log.entries

-- A failing write of the file is ignored.
unfoldable pub advance : Bool → ℕ → ReplicationLog → ReplicationLog
unfolding persist
advance w to_seq log =
    if leb to_seq log.pushed_seq
    then log
    else (persist w (record log {
      pushed_seq = to_seq;
      entries = retain (λ e. ltb to_seq e.seq) log.entries;
    })).1

unfoldable pub tail_seq : ReplicationLog → ℕ
unfolding last_seq
tail_seq log = last_seq log.entries

pub record Replicator : Type 0 where
  pub log : ReplicationLog
  pub slaves : List String
  pub sync_mode : String

abbrev pub valid_mode : String → Bool
valid_mode mode = (mode == "async") || (mode == "sync")

unfoldable pub new_replicator : Option (List ReplEntry) → List String → String → Result Replicator
unfolding open_log
new_replicator file slaves sync_mode =
    if valid_mode sync_mode
    then ok (record { log = open_log file; slaves = slaves; sync_mode = sync_mode })
    else err cluster

abbrev pub is_nil {ℓ} : {A : Type ℓ} → List A → Bool
is_nil [] = true
is_nil (x ∷ xs) = false

-- What a slave answers to the entries: the number that it acknowledges, or a failed connection or call.
abbrev pub SlaveCall : Type 0
SlaveCall = String → List ReplEntry → Result ℕ

unfoldable pub push_to : SlaveCall → List ReplEntry → List String → ℕ → Result ℕ
push_to call entries [] max_acked = ok max_acked
push_to call entries (addr ∷ addrs) max_acked =
    call addr entries >>= λ acked. push_to call entries addrs (max max_acked acked)

abbrev pub pushed : Bool → Replicator → Result ℕ → Result ℕ × Replicator
pushed w r (ok max_acked) =
    (ok (length (pending r.log)), record r { log = advance w max_acked r.log })
pushed w r (err e) = (err e, r)
pushed w r panic = (panic, r)

unfoldable pub push_pending : Bool → SlaveCall → Replicator → Result ℕ × Replicator
unfolding push_to pending advance
push_pending w call r =
    if is_nil r.slaves || is_nil (pending r.log)
    then (ok 0, r)
    else pushed w r (push_to call (pending r.log) r.slaves 0)

abbrev pub done {ℓ} : {X : Type ℓ} → Result X × Replicator → Result (Unit {0}) × Replicator
done (ok x, r) = (ok tt, r)
done (err e, r) = (err e, r)
done (panic, r) = (panic, r)

abbrev pub if_sync :
    Bool → SlaveCall → Result ℕ × ReplicationLog → Replicator → Result (Unit {0}) × Replicator
if_sync w call (ok seq, log) r =
    let r1 : Replicator = record r { log = log } in
    if r.sync_mode == "sync" then done (push_pending w call r1) else (ok tt, r1)
if_sync w call (err e, log) r = (err e, record r { log = log })
if_sync w call (panic, log) r = (panic, record r { log = log })

-- `w` is for the write of `append`, `w'` for the one of `advance`.
unfoldable pub record_write :
    (w w' : Bool)
    → SlaveCall
    → String
    → ℕ
    → String
    → List String
    → Replicator
    → Result (Unit {0}) × Replicator
unfolding append push_pending
record_write w w' call op docid json terms r =
    if_sync w' call (append w op docid json terms r.log) r

abbrev pub then_apply : {E : Type 0} → Result (Unit {0}) × E → (E → Result ℕ × E) → Result ℕ × E
then_apply (ok u, eng) rest = rest eng
then_apply (err e, eng) rest = (err rpc, eng)
then_apply (panic, eng) rest = (panic, eng)

-- The handler of `repl.apply`: `put` and `delete` are the engine's.
module _ {E : Type 0} (put : E → ReplEntry → Result (Unit {0}) × E)
    (delete : E → ℕ → Result (Unit {0}) × E) where
  abbrev pub apply_entry : E → ReplEntry → Result (Unit {0}) × E
  apply_entry eng e =
      if e.op == "put"
      then put eng e
      else if e.op == "delete"
      then delete eng e.docid
      else (err rpc, eng)

  unfoldable pub apply : List ReplEntry → ℕ → E → Result ℕ × E
  apply [] acked_seq eng = (ok acked_seq, eng)
  apply (e ∷ es) acked_seq eng = then_apply (apply_entry eng e) (λ eng1. apply es e.seq eng1)
