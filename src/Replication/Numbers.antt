-- ===== src/Replication/Numbers.antt =====
-- The numbers of the entries.
use Prim.Native.String.{String}
use native.Mathlib.Nat.{mod-eq_of_lt}
use shanshui_cunji.Prelude.{
  ℕ, ◌+◌, ◌%◌, ◌^◌, ◌≤◌, ◌<◌, ◌≡◌, refl, ap, List, [], ◌∷◌, ◌++◌, Bool, true, false, ltb, leb,
  retain, arith, Bool-cases, inl, inr,
}
use shanshui_cunji.Errors.{Result, ok, err, panic}
use shanshui_cunji.Replication.{
  ReplEntry, ReplicationLog, last_seq, persist, with_entry, append, advance, apply, then_apply,
  apply_entry,
}

-- Every number is larger than `low` and than those before it.
abbrev pub IsIncreasing : ℕ → List ReplEntry → Type 0
IsIncreasing low [] = Unit
IsIncreasing low (e ∷ es) = (low < e.seq) × IsIncreasing e.seq es

pub last_seq-append : (es : List ReplEntry) (e : ReplEntry) → last_seq (es ++ (e ∷ [])) ≡ e.seq
unfolding last_seq
last_seq-append [] e = refl
last_seq-append (x ∷ []) e = refl
last_seq-append (x ∷ (y ∷ es)) e = last_seq-append (y ∷ es) e

pub last_seq-ge :
    (e : ReplEntry) (es : List ReplEntry) → IsIncreasing e.seq es → e.seq ≤ last_seq (e ∷ es)
unfolding last_seq
last_seq-ge e [] h = omega arith
last_seq-ge e (f ∷ es) (a, h) = omega (arith, last_seq-ge f es h)

above_last :
    (low : ℕ) (es : List ReplEntry) (e : ReplEntry)
    → IsIncreasing low es
    → low < e.seq
    → last_seq es < e.seq
    → IsIncreasing low (es ++ (e ∷ []))
unfolding last_seq
above_last low [] e h l m = (l, tt)
above_last low (x ∷ []) e h l m = (h.0, (m, tt))
above_last low (x ∷ (y ∷ es)) e (a, (b, h)) l m =
    let later : IsIncreasing x.seq ((y ∷ es) ++ (e ∷ [])) =
      above_last x.seq (y ∷ es) e (b, h) (omega (arith, last_seq-ge y es h)) m in
    (a, later)

-- Leaving entries out keeps the order.
retain-IsIncreasing :
    (p : ReplEntry → Bool) (low bottom : ℕ) (es : List ReplEntry)
    → bottom ≤ low
    → IsIncreasing low es
    → IsIncreasing bottom (retain p es)
retain-IsIncreasing p low bottom [] le h = tt
retain-IsIncreasing p low bottom (e ∷ es) le (a, h) = elim (Bool-cases (p e)) [
  | inl in' ↦ rw in' (omega arith, retain-IsIncreasing p e.seq e.seq es (omega arith) h)
  | inr out ↦ rw out (retain-IsIncreasing p e.seq bottom es (omega arith) h)
]

-- The numbers in the buffer stay positive and increasing, whether or not the file is written, as long as
-- the last one is below 2^64 - 1.
pub append-IsIncreasing :
    (w : Bool) (op : String) (docid : ℕ) (json : String) (terms : List String)
    (log : ReplicationLog)
    → last_seq log.entries + 1 < 2 ^ 64
    → IsIncreasing 0 log.entries
    → IsIncreasing 0 (append w op docid json terms log).1.entries
unfolding append persist with_entry
append-IsIncreasing w op docid json terms log small h =
    let e : ReplEntry = record {
      seq = (last_seq log.entries + 1) % 2 ^ 64;
      op = op;
      docid = docid;
      json = json;
      terms = terms;
    } in
    let number : e.seq ≡ last_seq log.entries + 1 = mod-eq_of_lt small in
    let both : IsIncreasing 0 (log.entries ++ (e ∷ [])) =
      above_last 0 log.entries e h (omega (arith, number)) (omega (arith, number)) in
    elim w as (λ k. IsIncreasing 0 (append k op docid json terms log).1.entries) [
      | true ↦ both
      | false ↦ both
    ]

pub advance-IsIncreasing :
    (w : Bool) (to_seq : ℕ) (log : ReplicationLog)
    → IsIncreasing 0 log.entries
    → IsIncreasing 0 (advance w to_seq log).entries
unfolding advance persist
advance-IsIncreasing w to_seq log h =
    let kept = retain-IsIncreasing (λ e. ltb to_seq e.seq) 0 0 log.entries (omega arith) h in
    elim (Bool-cases (leb to_seq log.pushed_seq)) [
      | inl old ↦ rw old h
      | inr new' ↦
          rw new' (elim w as (λ w'. IsIncreasing 0 (persist w' _).1.entries) [
            | true ↦ kept
            | false ↦ kept
          ])
    ]

then_apply-ok :
    {E : Type 0} (call : Result (Unit {0}) × E) (rest : E → Result ℕ × E) {n : ℕ} {eng : E}
    → then_apply call rest ≡ (ok n, eng)
    → (eng1 : E) × (rest eng1 ≡ (ok n, eng))
then_apply-ok (ok u, eng1) rest h = (eng1, h)
then_apply-ok (err e, eng1) rest h = cc
then_apply-ok (panic, eng1) rest h = cc

-- A slave that applied all entries acknowledges the number of the last one.
pub apply-last_seq :
    {E : Type 0} (put : E → ReplEntry → Result (Unit {0}) × E)
    (delete : E → ℕ → Result (Unit {0}) × E) (e : ReplEntry) (es : List ReplEntry) (acked n : ℕ)
    (eng eng' : E)
    → apply put delete (e ∷ es) acked eng ≡ (ok n, eng')
    → n ≡ last_seq (e ∷ es)
unfolding apply last_seq
apply-last_seq {E = E} put delete e [] acked n eng eng' h =
    let (eng1, h1) = then_apply-ok (apply_entry put delete eng e) (λ g. (ok e.seq, g)) h in
    let same : ◌≡◌ {A = Result ℕ} (ok e.seq) (ok n) = ap (λ (x : Result ℕ × E). x.0) h1 in cc
apply-last_seq put delete e (f ∷ es) acked n eng eng' h =
    let (eng1, h1) =
      then_apply-ok (apply_entry put delete eng e) (λ g. apply put delete (f ∷ es) e.seq g) h in
    apply-last_seq put delete f es e.seq n eng1 eng' h1
