-- ===== src/Replication/Push.antt =====
-- What a push that the slaves acknowledge leaves in the buffer.
use Prim.Native.String.{String}
use shanshui_cunji.Prelude.{
  some, ℕ, ◌≤◌, ◌<◌, ◌≡◌, refl, ap, ◌∙◌, List, [], ◌∷◌, Bool, true, false, ltb, leb, max, retain,
  length, Mem, arith, inl, inr,
}
use shanshui_cunji.Errors.{ok}
use shanshui_cunji.Replication.{
  open_log, ReplEntry, ReplicationLog, Replicator, SlaveCall, last_seq, tail_seq, persist,
  with_entry, append, advance, pending, push_to, push_pending, is_nil,
}
use shanshui_cunji.Replication.Numbers.{IsIncreasing, last_seq-ge}

push_to-ok :
    (call : SlaveCall) (es : List ReplEntry) (t m : ℕ) (addr : String) (addrs : List String)
    → ((a : String) → Mem a (addr ∷ addrs) → call a es ≡ ok t)
    → m ≤ t
    → push_to call es (addr ∷ addrs) m ≡ ok t
unfolding push_to
push_to-ok call es t m addr [] acks le =
    let most : max m t ≡ t = omega arith in rw (acks addr (inl refl), most) refl
push_to-ok call es t m addr (b ∷ bs) acks le =
    rw (acks addr (inl refl))
      (push_to-ok call es t (max m t) b bs (λ a h. acks a (inr h)) (omega arith))

drained :
    (low : ℕ) (es : List ReplEntry) (t : ℕ)
    → IsIncreasing low es
    → last_seq es ≤ t
    → retain (λ e. ltb t e.seq) es ≡ []
unfolding last_seq
drained low [] t h le = refl
drained low (e ∷ []) t h le = ground arith
drained low (e ∷ (f ∷ es)) t (a, h) le =
    let rest : retain (λ x. ltb t x.seq) (f ∷ es) ≡ [] = drained e.seq (f ∷ es) t h le in
    let here : ltb t e.seq ≡ false = ground (arith, last_seq-ge f es h.1, h.0) in rw here rest

-- Writing the file leaves the buffer and the cursor.
entries_kept : (w : Bool) (log : ReplicationLog) → (persist w log).1.entries ≡ log.entries
unfolding persist
entries_kept true log = refl
entries_kept false log = refl

cursor_kept : (w : Bool) (log : ReplicationLog) → (persist w log).1.pushed_seq ≡ log.pushed_seq
unfolding persist
cursor_kept true log = refl
cursor_kept false log = refl

abbrev pub with_log : String → String → List String → ReplicationLog → Replicator
with_log mode addr addrs l = record { log = l; slaves = addr ∷ addrs; sync_mode = mode }

module _ (w : Bool) (call : SlaveCall) (log : ReplicationLog) (mode addr : String)
    (addrs : List String) (e : ReplEntry) (es : List ReplEntry) where
  pushed_all :
      log.entries ≡ e ∷ es
      → ((a : String) → Mem a (addr ∷ addrs) → call a log.entries ≡ ok (tail_seq log))
      → push_pending w call (with_log mode addr addrs log)
        ≡ (ok (length log.entries), with_log mode addr addrs (advance w (tail_seq log) log))
  unfolding push_pending pending
  pushed_all some_entries acks =
      let filled : is_nil log.entries ≡ false = rw some_entries refl in
      rw (filled, push_to-ok call log.entries (tail_seq log) 0 addr addrs acks (omega arith)) refl

  -- Where there are slaves and pending entries, the entries' numbers increase, and the cursor is below
  -- the last number: if every slave acknowledges the last number, then the push returns `Ok` with the
  -- number of entries, nothing is pending, and the cursor is at the last number.
  pub push_drains :
      log.entries ≡ e ∷ es
      → IsIncreasing 0 log.entries
      → log.pushed_seq < tail_seq log
      → ((a : String) → Mem a (addr ∷ addrs) → call a log.entries ≡ ok (tail_seq log))
      → ((push_pending w call (with_log mode addr addrs log)).0 ≡ ok (length log.entries))
        × (pending (push_pending w call (with_log mode addr addrs log)).1.log ≡ [])
        × ((push_pending w call (with_log mode addr addrs log)).1.log.pushed_seq ≡ tail_seq log)
  unfolding advance pending tail_seq
  push_drains some_entries increasing ahead acks =
      let new' : leb (last_seq log.entries) log.pushed_seq ≡ false = ground arith in
      let empty = drained 0 log.entries (last_seq log.entries) increasing (omega arith) in
      let after : ReplicationLog = record log {
        pushed_seq = tail_seq log;
        entries = retain (λ x. ltb (tail_seq log) x.seq) log.entries;
      } in
      rw (pushed_all some_entries acks, new')
        (refl, entries_kept w after ∙ empty, cursor_kept w after)

  -- Where the last number was reached before, nothing is drained.
  pub push_keeps :
      log.entries ≡ e ∷ es
      → tail_seq log ≤ log.pushed_seq
      → ((a : String) → Mem a (addr ∷ addrs) → call a log.entries ≡ ok (tail_seq log))
      → push_pending w call (with_log mode addr addrs log)
        ≡ (ok (length log.entries), with_log mode addr addrs log)
  unfolding advance
  push_keeps some_entries behind acks =
      let old : leb (tail_seq log) log.pushed_seq ≡ true = ground arith in
      rw (pushed_all some_entries acks, old) refl

module _ (w : Bool) (call : SlaveCall) (log : ReplicationLog) (mode addr : String)
    (addrs : List String) where
  -- The first write after the buffer was drained gets the number 1 again, and a push of it that every slave
  -- acknowledges does not drain it.
  pub drained_stuck :
      (op : String) (docid : ℕ) (json : String) (terms : List String)
      → log.entries ≡ []
      → 0 < log.pushed_seq
      → ((a : String)
          → Mem a (addr ∷ addrs)
          → call a (append true op docid json terms log).1.entries ≡ ok 1)
      → ((append true op docid json terms log).0 ≡ ok 1)
        × (push_pending w call (with_log mode addr addrs (append true op docid json terms log).1)
            ≡ (ok 1, with_log mode addr addrs (append true op docid json terms log).1))
  unfolding append persist with_entry tail_seq last_seq
  drained_stuck op docid json terms empty ahead acks =
      let log1 = (append true op docid json terms log).1 in
      let one : ReplEntry = record {
        seq = 1;
        op = op;
        docid = docid;
        json = json;
        terms = terms;
      } in
      let there : log1.entries ≡ one ∷ [] = rw empty refl in
      let last : tail_seq log1 ≡ 1 = rw empty refl in
      let kept =
        push_keeps w call log1 mode addr addrs one [] there (omega (arith, last)) (rw last acks) in
      (
        rw empty refl,
        kept ∙ ap (λ (xs : List ReplEntry). (ok (length xs), with_log mode addr addrs log1)) there,
      )

module _ (w : Bool) (call : SlaveCall) (mode addr : String) (addrs : List String) where
  -- After a restart with entries in the file, a push that every slave acknowledges drains nothing.
  pub opened_stuck :
      (e : ReplEntry) (es : List ReplEntry)
      → ((a : String) → Mem a (addr ∷ addrs) → call a (e ∷ es) ≡ ok (last_seq (e ∷ es)))
      → push_pending w call (with_log mode addr addrs (open_log (some (e ∷ es))))
        ≡ (ok (length (e ∷ es)), with_log mode addr addrs (open_log (some (e ∷ es))))
  unfolding open_log tail_seq
  opened_stuck e es acks =
      push_keeps w call (open_log (some (e ∷ es))) mode addr addrs e es refl (omega arith) acks
