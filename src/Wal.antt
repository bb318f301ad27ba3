-- ===== src/Wal.antt =====
-- src/wal.rs: the append-mode log, from the records that a writer appends to what is read back after
-- a crash. The file is the bytes written to it; its calls succeed here. `last_sync` is a time and is
-- left out.
pub mod Frame
pub mod Replay
pub mod Crash
pub mod Torn
pub mod History
pub mod Ring
pub mod Backend
use Prim.Native.Nat.{bit_and, bit_xor}
use shanshui_cunji.Prelude.{
  ℕ, zero, suc, ◌+◌, ◌-◌, ◌*◌, ◌/◌, ◌%◌, ◌^◌, Bool, true, false, not, ◌&&◌, Option, none, some,
  List, [], ◌∷◌, ◌++◌, ltb, leb, ◌==◌, if◌then◌else◌, length, take, drop, slice, is_some, max,
}
use shanshui_cunji.Errors.{Result, ok, err, panic, corrupted, fail_if, ◌>>=◌, ◌>>◌}
use shanshui_cunji.Bytes.{Bytes, to_le, from_le, bytes_eq}
use shanshui_cunji.Keys.{encode_varlen, decode_varlen}

abbrev pub op_put : ℕ
op_put = 0

abbrev pub op_delete : ℕ
op_delete = 1

pub record WalRecord : Type 0 where
  pub seq : ℕ
  pub op : ℕ
  pub key : Bytes
  pub value : Option Bytes

-- `u32::wrapping_neg` of the lowest bit is all ones or nothing.
unfoldable pub crc_rounds : ℕ → ℕ → ℕ
crc_rounds zero crc = crc
crc_rounds (suc n) crc =
    let mask = (2 ^ 32 - bit_and crc 1) % 2 ^ 32 in
    crc_rounds n (bit_xor (crc / 2) (bit_and 0xEDB88320 mask))

unfoldable pub crc_bytes : ℕ → Bytes → ℕ
crc_bytes crc [] = crc
crc_bytes crc (b ∷ data') = crc_bytes (crc_rounds 8 (bit_xor crc b)) data'

-- `!crc` on 32 bits.
unfoldable pub crc32 : Bytes → ℕ
unfolding crc_bytes crc_rounds
crc32 data' = 2 ^ 32 - 1 - crc_bytes (2 ^ 32 - 1) data'

-- "SCWAL01\0"
abbrev pub wal_header : Bytes
wal_header = 83 ∷ 67 ∷ 87 ∷ 65 ∷ 76 ∷ 48 ∷ 49 ∷ 0 ∷ []

abbrev pub wal_header_len : ℕ
wal_header_len = 16

pub record WalWriter : Type 0 where
  pub file : Bytes
  pub next_seq : ℕ
  pub buf : Bytes
  pub perf_mode : Bool
  pub pending_bytes : ℕ

unfoldable pub create : Bool → WalWriter
create perf_mode = record {
  file = [];
  next_seq = 1;
  buf = [];
  perf_mode = perf_mode;
  pending_bytes = 0;
}

abbrev pub has_header : Bytes → Bool
has_header file = leb wal_header_len (length file) && bytes_eq (take 8 file) wal_header

-- The number in the file's header goes before the one that is given.
unfoldable pub open_append : Bytes → ℕ → Bool → WalWriter
open_append file next_seq perf_mode = record {
  file = file;
  next_seq = if has_header file then from_le (slice file 8 16) else next_seq;
  buf = [];
  perf_mode = perf_mode;
  pending_bytes = 0;
}

unfoldable pub truncate_and_reset : WalWriter → WalWriter
truncate_and_reset w = record w {
  file = wal_header ++ to_le 8 w.next_seq;
  buf = [];
  pending_bytes = 0;
}

unfoldable pub resume_seq : WalWriter → ℕ → WalWriter
resume_seq w next_seq = record w { next_seq = next_seq }

abbrev pub or_empty : Option Bytes → Bytes
or_empty none = []
or_empty (some v) = v

unfoldable pub payload_of : ℕ → Bytes → Option Bytes → ℕ → Bytes
payload_of op key value seq =
    encode_varlen (encode_varlen (to_le 8 seq ++ (op ∷ [])) key) (or_empty value)

-- Length, checksum and payload.
unfoldable pub frame : Bytes → Bytes
frame payload = to_le 4 (length payload % 2 ^ 32) ++ (to_le 4 (crc32 payload) ++ payload)

unfoldable pub append_at : WalWriter → ℕ → Bytes → Option Bytes → ℕ → WalWriter
append_at w op key value seq =
    let payload = payload_of op key value seq in
    record w {
      next_seq = max w.next_seq ((seq + 1) % 2 ^ 64);
      buf = w.buf ++ frame payload;
      pending_bytes = w.pending_bytes + (8 + length payload);
    }

unfoldable pub append : WalWriter → ℕ → Bytes → Option Bytes → ℕ × WalWriter
append w op key value = (
  w.next_seq,
  append_at (record w { next_seq = (w.next_seq + 1) % 2 ^ 64 }) op key value w.next_seq,
)

unfoldable pub sync : WalWriter → WalWriter
sync w = elim w.buf [
  | [] ↦ w
  | (b ∷ bs) ↦ record w { file = w.file ++ w.buf; buf = []; pending_bytes = 0 }
]

unfoldable pub decode_payload : Bytes → Result WalRecord
decode_payload payload = do
  fail_if (ltb (length payload) 9) corrupted
  (key, pos) ← decode_varlen payload 9
  (val_raw, last) ← decode_varlen payload pos
  let op = from_le (slice payload 8 9)
  ok (record {
    seq = from_le (slice payload 0 8);
    op = op;
    key = key;
    value = if length val_raw == 0 && op == op_delete then none else some val_raw;
  })

-- One more record in front, if it could be decoded; a failure ends the replay.
abbrev pub keep_record : Result WalRecord → List WalRecord → List WalRecord
keep_record (ok r) later = r ∷ later
keep_record (err e) later = []
keep_record panic later = []

-- The loop of `recover` over the bytes from `pos` on, on fuel; a round takes eight bytes at least.
unfoldable pub replay : ℕ → Bytes → List WalRecord
replay zero rest = []
replay (suc fuel) rest =
    let len = from_le (slice rest 0 4) in
    let crc = from_le (slice rest 4 8) in
    let body = drop 8 rest in
    let payload = take len body in
    let later = keep_record (decode_payload payload) (replay fuel (drop len body)) in
    if ltb (length rest) 8
    then []
    else if ltb (length body) len
    then []
    else if not (crc32 payload == crc)
    then []
    else later

unfoldable pub recover : Bytes → List WalRecord
recover buf =
    let start = if has_header buf then wal_header_len else 0 in replay (length buf) (drop start buf)
