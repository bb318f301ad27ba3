-- ===== src/RaftMeta/Commit.antt =====
-- Proposals at a node that is cut off.
use shanshui_cunji.Prelude.{
  ℕ, zero, suc, ◌+◌, ◌-◌, ◌≡◌, ◌≢◌, refl, ap, ◌∙◌, true, false, Option, some, List, [], ◌∷◌, ◌++◌,
  ◌==◌, find, retain, Bool-cases, inl, inr, arith, length, length-append, get_elem?, if◌then◌else◌,
}
use shanshui_cunji.RaftMeta.{
  RaftMetaNode, RaftMetaGroup, MetaOp, MetaEntry, has_id, update_at, ids, others, propose,
  commit_all, send_appends, send_append, passes, apply_loop, apply_to_state, apply_op, after_op,
  is_ok, register_node, unregister_node,
}
use shanshui_cunji.RaftMeta.Steps.{apply_to_state-Same}
use shanshui_cunji.Errors.{Result, ok, err, panic}
use shanshui_cunji.Meta.{MetaCenter, register}

-- Nothing is passed on from an isolated node.
send_appends_isolated :
    (tos : List ℕ) (from term : ℕ) (entries : List MetaEntry) (now : ℕ) (ns : List RaftMetaNode)
    (n : RaftMetaNode)
    → find (has_id from) ns ≡ some n
    → n.reachable ≡ false
    → send_appends from tos term entries now ns ≡ ns
unfolding send_appends send_append
send_appends_isolated [] from term entries now ns n e h = refl
send_appends_isolated (to ∷ tos) from term entries now ns n e h =
    let stopped : passes from to ns ≡ false = rw (e, h) refl in
    rw stopped (send_appends_isolated tos from term entries now ns n e h)

find-update_at :
    (id : ℕ) (f : RaftMetaNode → RaftMetaNode) (ns : List RaftMetaNode) (n : RaftMetaNode)
    → ((m : RaftMetaNode) → (f m).id ≡ m.id)
    → find (has_id id) ns ≡ some n
    → find (has_id id) (update_at id f ns) ≡ some (f n)
unfolding update_at
find-update_at id f [] n same e = cc
find-update_at id f (m ∷ ns) n same e = elim (Bool-cases (m.id == id)) [
  | inl here ↦
      let found : ◌≡◌ {A = Option RaftMetaNode} (some m) (some n) = rw here at e in
      let it : m ≡ n = cc in
      let kept : ((f m).id == id) ≡ true = ap (λ i. i == id) (same m) ∙ here in
      rw (here, kept) (ap (λ x. some (f x)) it)
  | inr there ↦ rw (there, there) (find-update_at id f ns n same (rw there at e))
]

abbrev pub logged : MetaOp → RaftMetaNode → RaftMetaNode → RaftMetaNode
logged op n m = record m { log = m.log ++ (record { term = n.term; op = op } ∷ []) }

find-update_at_other :
    (id other : ℕ) (f : RaftMetaNode → RaftMetaNode) (ns : List RaftMetaNode)
    → ((m : RaftMetaNode) → (f m).id ≡ m.id)
    → (id == other) ≡ false
    → find (has_id other) (update_at id f ns) ≡ find (has_id other) ns
unfolding update_at
find-update_at_other id other f [] same apart = refl
find-update_at_other id other f (m ∷ ns) same apart =
    ground (arith, same m, find-update_at_other id other f ns same apart)

-- At a node that no message reaches or leaves, the messages to the other nodes change nothing.
propose_alone :
    (id : ℕ) (op : MetaOp) (g : RaftMetaGroup) (n : RaftMetaNode)
    → find (has_id id) g.nodes ≡ some n
    → n.reachable ≡ false
    → propose id op g ≡ (
      (commit_all (logged op n n)).0,
      record g {
        nodes = update_at id (λ m. (commit_all m).1) (update_at id (logged op n) g.nodes);
      },
    )
unfolding propose
propose_alone id op g n e h =
    let there : find (has_id id) (update_at id (logged op n) g.nodes) ≡ some (logged op n n) =
      find-update_at id (logged op n) g.nodes n (λ m. refl) e in
    let alone =
      send_appends_isolated
        (others id (ids (retain (λ m. m.reachable) (update_at id (logged op n) g.nodes)))) id n.term
        (record { term = n.term; op = op } ∷ []) g.now (update_at id (logged op n) g.nodes)
        (logged op n n) there h in
    rw (e, alone, there) refl

get_elem?-snoc :
    {A : Type 0} (xs : List A) (x : A) → get_elem? (xs ++ (x ∷ [])) (length xs) ≡ some x
get_elem?-snoc [] x = refl
get_elem?-snoc (y ∷ ys) x = get_elem?-snoc ys x

length-snoc : {A : Type 0} (xs : List A) (x : A) → length (xs ++ (x ∷ [])) ≡ suc (length xs)
length-snoc xs x = omega (arith, length-append xs (x ∷ []))

-- The node after its last entry was committed and applied, with the outcome `r`.
abbrev settled : RaftMetaNode → Result (Unit {0}) × MetaCenter → RaftMetaNode
settled n r = record n {
  commit = length n.log;
  applied = if is_ok r.0 then n.applied + 1 else n.applied;
  state = r.1;
}

after_op-settled :
    (n : RaftMetaNode) (r : Result (Unit {0}) × MetaCenter)
    → r.0 ≢ panic
    → after_op (record n { commit = length n.log }) (apply_loop 0) r ≡ (r.0, settled n r)
unfolding apply_loop
after_op-settled n (ok u, m) h = refl
after_op-settled n (err e, m) h = refl
after_op-settled n (panic, m) h = absurd (h refl)

apply_op_never_panics : (op : MetaOp) (m : MetaCenter) → (apply_op op m).0 ≢ panic
unfolding register
apply_op_never_panics (register_node node addr role) m = ground arith
apply_op_never_panics (unregister_node node) m = ground arith

commit_all-settled :
    (op : MetaOp) (n : RaftMetaNode)
    → n.applied ≡ length n.log
    → commit_all (logged op n n)
      ≡ ((apply_op op n.state).0, settled (logged op n n) (apply_op op n.state))
unfolding commit_all apply_to_state apply_loop
commit_all-settled op n h =
    let entry : MetaEntry = record { term = n.term; op = op } in
    let one : length (n.log ++ (entry ∷ [])) - n.applied ≡ suc zero =
      omega (arith, length-snoc n.log entry) in
    let it : get_elem? (n.log ++ (entry ∷ [])) n.applied ≡ some entry =
      rw h (get_elem?-snoc n.log entry) in
    rw (one, it)
      (after_op-settled (logged op n n) (apply_op op n.state) (apply_op_never_panics op n.state))

commit_all-id : (m : RaftMetaNode) → (commit_all m).1.id ≡ m.id
unfolding commit_all
commit_all-id m =
    (apply_to_state-Same m (record m { commit = length m.log })
      (record { id = refl; role = refl; term = refl; vote = refl })).id

-- What is left of `n` once it has committed and applied an operation: its log with the entry behind
-- it, all of it committed, and the operation's outcome on its metadata.
pub record Committed (n : RaftMetaNode) (op : MetaOp) (m : RaftMetaNode) : Type 0 where
  pub log : m.log ≡ n.log ++ (record { term = n.term; op = op } ∷ [])
  pub commit : m.commit ≡ length m.log
  pub applied : m.applied ≡ (if is_ok (apply_op op n.state).0 then length m.log else length n.log)
  pub state : m.state ≡ (apply_op op n.state).1
  pub role : m.role ≡ n.role

settled-Committed :
    (op : MetaOp) (n : RaftMetaNode)
    → n.applied ≡ length n.log
    → Committed n op (settled (logged op n n) (apply_op op n.state))
settled-Committed op n h = record {
  log = refl;
  commit = refl;
  applied = ground (arith, h, length-snoc n.log (record { term = n.term; op = op }));
  state = refl;
  role = refl;
}

-- At a node that no message reaches or leaves, whatever its role, a proposal is committed all the
-- same. Where the node has applied all of its log, it has the entry at the end of its log then, all
-- of the log committed, and the same role; its metadata and the outcome returned are those of the
-- operation on its metadata, and unless the outcome is an error all of the log is applied. No other
-- node is changed.
pub propose_isolated :
    (id other : ℕ) (op : MetaOp) (g : RaftMetaGroup) (n : RaftMetaNode)
    → find (has_id id) g.nodes ≡ some n
    → n.reachable ≡ false
    → n.applied ≡ length n.log
    → (id == other) ≡ false
    → ((propose id op g).0 ≡ (apply_op op n.state).0)
      × ((m : RaftMetaNode) × (find (has_id id) (propose id op g).1.nodes ≡ some m)
          × Committed n op m)
      × (find (has_id other) (propose id op g).1.nodes ≡ find (has_id other) g.nodes)
propose_isolated id other op g n e h whole apart =
    let done = commit_all-settled op n whole in
    let there = find-update_at id (logged op n) g.nodes n (λ m. refl) e in
    let same = commit_all-id in
    rw (propose_alone id op g n e h) (
      ap (λ r. r.0) done,
      (
        settled (logged op n n) (apply_op op n.state),
        find-update_at id (λ m. (commit_all m).1) (update_at id (logged op n) g.nodes)
              (logged op n n) same there
            ∙ ap (λ r. some r.1) done,
        settled-Committed op n whole,
      ),
      find-update_at_other id other (λ m. (commit_all m).1) (update_at id (logged op n) g.nodes)
            same apart
          ∙ find-update_at_other id other (logged op n) g.nodes (λ m. refl) apart,
    )
