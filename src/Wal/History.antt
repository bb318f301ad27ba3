-- ===== src/Wal/History.antt =====
-- The append-mode log over every sequence of calls and restarts, against two lists of records.
use shanshui_cunji.Prelude.{
  ℕ, zero, suc, ◌+◌, ◌≤◌, ◌<◌, ◌^◌, ◌≡◌, refl, sym, ap, ◌∙◌, Bool, false, List, [], ◌∷◌, ◌++◌,
  arith, append_assoc, append-nil, length, All, map, ◌%◌, ◌/◌, ◌⊎◌, inl, inr, ◌==◌,
}
use shanshui_cunji.Bytes.{Bytes, to_le, bytes_eq}
use shanshui_cunji.Wal.{
  WalRecord, WalWriter, create, open_append, append_at, sync, truncate_and_reset, recover, replay,
  frame, wal_header, has_header,
}
use shanshui_cunji.Wal.Crash.{
  payload, IsWritable, log_bytes, read_back, replay_next, Bytes-cases, sync-file,
  recover-with_header,
}
use shanshui_cunji.Wal.Ring.Holds.{log_bytes-append}

pub data LogCall : Type 0 where
  call_append : WalRecord → LogCall
  call_sync call_truncate : LogCall
  -- The process ends, and the file is opened again with this number.
  call_reopen : ℕ → LogCall

unfoldable pub after_call : LogCall → WalWriter → WalWriter
after_call (call_append r) w = append_at w r.op r.key r.value r.seq
after_call call_sync w = sync w
after_call call_truncate w = truncate_and_reset w
after_call (call_reopen n) w = open_append w.file n w.perf_mode

unfoldable pub after_calls : List LogCall → WalWriter → WalWriter
after_calls [] w = w
after_calls (c ∷ cs) w = after_calls cs (after_call c w)

-- What a log promises: the records that a restart keeps, and those that wait for a sync.
pub record Promise : Type 0 where
  pub kept : List WalRecord
  pub waiting : List WalRecord

unfoldable pub promised_call : LogCall → Promise → Promise
promised_call (call_append r) p = record p { waiting = p.waiting ++ (r ∷ []) }
promised_call call_sync p = record { kept = p.kept ++ p.waiting; waiting = [] }
promised_call call_truncate p = record { kept = []; waiting = [] }
promised_call (call_reopen n) p = record p { waiting = [] }

unfoldable pub promised : List LogCall → Promise → Promise
promised [] p = p
promised (c ∷ cs) p = promised cs (promised_call c p)

-- A record that fits its format, in less than 2^30 bytes.
pub record IsSmall (r : WalRecord) : Type 0 where
  pub writable : IsWritable r
  pub short : length (payload r) < 2 ^ 30

abbrev pub AppendsSmall : LogCall → Type 0
AppendsSmall (call_append r) = IsSmall r
AppendsSmall _ = Unit

-- The length of a small frame is not that of the header's letters.
has_header-log_bytes : (rs : List WalRecord) → All IsSmall rs → has_header (log_bytes rs) ≡ false
unfolding log_bytes frame to_le bytes_eq
has_header-log_bytes [] h = refl
has_header-log_bytes (r ∷ rs) (h, hs) =
    let n = length (payload r) % 2 ^ 32 in
    let high : (n / 256 / 256 / 256 % 256 == 65) ≡ false = ground (arith, h.short) in
    ground (arith, high)

All-append : (rs ss : List WalRecord) → All IsSmall rs → All IsSmall ss → All IsSmall (rs ++ ss)
All-append [] ss h k = k
All-append (r ∷ rs) ss (h, hs) k = (h, All-append rs ss hs k)

All-IsWritable : (rs : List WalRecord) → All IsSmall rs → All IsWritable rs
All-IsWritable [] h = tt
All-IsWritable (r ∷ rs) (h, hs) = (h.writable, All-IsWritable rs hs)

-- The start of the file: nothing in a new log, the header in one that was emptied.
abbrev IsStart : Bytes → Type 0
IsStart start = (start ≡ []) ⊎ ((n : ℕ) × (start ≡ wal_header ++ to_le 8 n))

record Keeps (w : WalWriter) (p : Promise) : Type 0 where
  start : Bytes
  is_start : IsStart start
  file : w.file ≡ start ++ log_bytes p.kept
  buf : w.buf ≡ log_bytes p.waiting
  small_kept : All IsSmall p.kept
  small_waiting : All IsSmall p.waiting

sync-buf : (w : WalWriter) → (sync w).buf ≡ []
unfolding sync
sync-buf w = elim (Bytes-cases w.buf) [ inl e ↦ rw e refl | inr (b, bs, e) ↦ rw e refl ]

log_bytes_one : (r : WalRecord) → log_bytes (r ∷ []) ≡ frame (payload r)
unfolding log_bytes
log_bytes_one r = append-nil (frame (payload r))

after_call-Keeps :
    (c : LogCall) (w : WalWriter) (p : Promise)
    → AppendsSmall c
    → Keeps w p
    → Keeps (after_call c w) (promised_call c p)
unfolding after_call promised_call append_at truncate_and_reset open_append log_bytes
after_call-Keeps (call_append r) w p small k = record {
  start = k.start;
  is_start = k.is_start;
  file = k.file;
  buf =
      ap (λ b. b ++ frame (payload r)) k.buf
      ∙ ap (λ b. log_bytes p.waiting ++ b) (sym (log_bytes_one r))
      ∙ sym (log_bytes-append p.waiting (r ∷ []));
  small_kept = k.small_kept;
  small_waiting = All-append p.waiting (r ∷ []) k.small_waiting (small, tt);
}
after_call-Keeps call_sync w p small k = record {
  start = k.start;
  is_start = k.is_start;
  file =
      sync-file w
      ∙ rw (k.file, k.buf) (append_assoc k.start (log_bytes p.kept) (log_bytes p.waiting))
      ∙ ap (λ b. k.start ++ b) (sym (log_bytes-append p.kept p.waiting));
  buf = sync-buf w;
  small_kept = All-append p.kept p.waiting k.small_kept k.small_waiting;
  small_waiting = tt;
}
after_call-Keeps call_truncate w p small k = record {
  start = wal_header ++ to_le 8 w.next_seq;
  is_start = inr (w.next_seq, refl);
  file = sym (append-nil (wal_header ++ to_le 8 w.next_seq));
  buf = refl;
  small_kept = tt;
  small_waiting = tt;
}
after_call-Keeps (call_reopen n) w p small k = record {
  start = k.start;
  is_start = k.is_start;
  file = k.file;
  buf = refl;
  small_kept = k.small_kept;
  small_waiting = tt;
}

after_calls-Keeps :
    (cs : List LogCall) (w : WalWriter) (p : Promise)
    → All AppendsSmall cs
    → Keeps w p
    → Keeps (after_calls cs w) (promised cs p)
unfolding after_calls promised
after_calls-Keeps [] w p h k = k
after_calls-Keeps (c ∷ cs) w p (h, hs) k =
    after_calls-Keeps cs (after_call c w) (promised_call c p) hs (after_call-Keeps c w p h k)

replay_log :
    (rs : List WalRecord) (fuel : ℕ)
    → All IsWritable rs
    → length (log_bytes rs) ≤ fuel
    → replay fuel (log_bytes rs) ≡ map read_back rs
unfolding log_bytes
replay_log [] zero w h = unfold replay in refl
replay_log [] (suc fuel) w h = unfold replay in refl
replay_log (r ∷ rs) fuel (w, ws) h =
    replay_next r (log_bytes rs) (map read_back rs) fuel w h (λ f room. replay_log rs f ws room)

recover_no_header :
    (rs : List WalRecord) → All IsSmall rs → recover (log_bytes rs) ≡ map read_back rs
unfolding recover
recover_no_header rs h =
    rw (has_header-log_bytes rs h)
      (replay_log rs (length (log_bytes rs)) (All-IsWritable rs h) (omega arith))

recover-Keeps :
    (start : Bytes) (rs : List WalRecord)
    → IsStart start
    → All IsSmall rs
    → recover (start ++ log_bytes rs) ≡ map read_back rs
recover-Keeps start rs (inl e) h = rw e (recover_no_header rs h)
recover-Keeps start rs (inr (n, e)) h =
    rw (e, recover-with_header n (log_bytes rs))
      (replay_log rs (16 + length (log_bytes rs)) (All-IsWritable rs h) (omega arith))

abbrev pub nothing : Promise
nothing = record { kept = []; waiting = [] }

-- From a new log on, after every sequence of appends, syncs, truncations and restarts, what is read
-- back of the file are the records promised: in their order, those that a sync has followed, less
-- those in front of a truncation. A restart drops the records that were appended after the last
-- sync, and so does a truncation. This is for records that fit their formats in less than 2^30
-- bytes; an empty value of a delete comes back as none, and an absent value of another operation as
-- an empty one.
pub recover-promised :
    (perf_mode : Bool) (cs : List LogCall)
    → All AppendsSmall cs
    → recover (after_calls cs (create perf_mode)).file ≡ map read_back (promised cs nothing).kept
unfolding create log_bytes
recover-promised perf_mode cs h =
    let create_kept : Keeps (create perf_mode) nothing = record {
      start = [];
      is_start = inl refl;
      file = refl;
      buf = refl;
      small_kept = tt;
      small_waiting = tt;
    } in
    let k = after_calls-Keeps cs (create perf_mode) nothing h create_kept in
    ap recover k.file ∙ recover-Keeps k.start (promised cs nothing).kept k.is_start k.small_kept
