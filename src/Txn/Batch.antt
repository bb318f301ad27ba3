-- ===== src/Txn/Batch.antt =====
-- Write operations and write batches of src/txn.rs. The global counters that number batches and
-- transactions are arguments.
use Prim.Native.String.{String}
use shanshui_cunji.Prelude.{
  ℕ, ◌≡◌, refl, Bool, true, List, [], ◌∷◌, ◌++◌, ◌==◌, if◌then◌else◌, arith, any,
}
use shanshui_cunji.Errors.{Result, ok, err, txn_conflict, fail_if, ◌>>◌}
use shanshui_cunji.Bytes.{Bytes}

pub data Op : Type 0 where
  put : ℕ → Bytes → List String → Op
  delete : ℕ → Op

unfoldable pub docid_of : Op → ℕ
docid_of (put docid value terms) = docid
docid_of (delete docid) = docid

pub record WriteBatch : Type 0 where
  pub ops : List Op
  pub id : ℕ

unfoldable pub new_batch : ℕ → WriteBatch
new_batch seq = record { ops = []; id = seq }

unfoldable pub batch_put : WriteBatch → ℕ → Bytes → List String → WriteBatch
batch_put b docid value terms = record b { ops = b.ops ++ (put docid value terms ∷ []) }

unfoldable pub batch_delete : WriteBatch → ℕ → WriteBatch
batch_delete b docid = record b { ops = b.ops ++ (delete docid ∷ []) }

unfoldable pub batch_rollback : WriteBatch → WriteBatch
batch_rollback b = record b { ops = [] }

unfoldable pub validate_ops : List Op → Result (Unit {0})
validate_ops [] = ok tt
validate_ops (op ∷ ops) = fail_if (docid_of op == 0) txn_conflict >> validate_ops ops

unfoldable pub validate_batch : WriteBatch → Result (Unit {0})
unfolding validate_ops
validate_batch b = validate_ops b.ops

-- Some operation writes the document `docid`.
abbrev pub writes : List Op → ℕ → Bool
writes ops docid = any (λ op. docid_of op == docid) ops

validate_ops_lem :
    (ops : List Op) → validate_ops ops ≡ (if writes ops 0 then err txn_conflict else ok tt)
unfolding validate_ops
validate_ops_lem [] = refl
validate_ops_lem (op ∷ ops) = ground (arith, validate_ops_lem ops)

pub writes-append :
    (ops : List Op) (op : Op) (d : ℕ)
    → writes (ops ++ (op ∷ [])) d ≡ (if docid_of op == d then true else writes ops d)
writes-append [] op d = ground arith
writes-append (o ∷ ops) op d = ground (arith, writes-append ops op d)

-- A batch is refused exactly when it writes the document 0: after a put or delete of another
-- document the answer is what it was, after one of document 0 it is a conflict.
pub validate_batch_lem :
    (b : WriteBatch) (docid : ℕ) (value : Bytes) (terms : List String)
    → (validate_batch (batch_put b docid value terms)
        ≡ (if docid == 0 then err txn_conflict else validate_batch b))
      × (validate_batch (batch_delete b docid)
          ≡ (if docid == 0 then err txn_conflict else validate_batch b))
      × (validate_batch b ≡ (if writes b.ops 0 then err txn_conflict else ok tt))
unfolding validate_batch batch_put batch_delete docid_of
validate_batch_lem b docid value terms = (
  ground (
    arith,
    validate_ops_lem (b.ops ++ (put docid value terms ∷ [])),
    validate_ops_lem b.ops,
    writes-append b.ops (put docid value terms) 0,
  ),
  ground (
    arith,
    validate_ops_lem (b.ops ++ (delete docid ∷ [])),
    validate_ops_lem b.ops,
    writes-append b.ops (delete docid) 0,
  ),
  validate_ops_lem b.ops,
)
