-- ===== src/RaftMeta/Calls.antt =====
-- Sequences of calls of the group: no term ever has two leaders.
use mathlib.Core.Path.{subst}
use shanshui_cunji.Prelude.{
  ℕ, suc, ◌+◌, ◌-◌, ◌^◌, ◌≤◌, ◌<◌, ◌≡◌, refl, sym, Bool, true, false, not, Option, some, List, [],
  ◌∷◌, ◌++◌, leb, ◌==◌, length, find, any, contains, retain, All, All-map, arith, Bool-cases,
  Option-cases, inl, inr,
}
use shanshui_cunji.Meta.{MetaCenter}
use shanshui_cunji.Errors.{Result, ok, err, panic}
use shanshui_cunji.RaftMeta.{
  RaftMetaNode, RaftMetaGroup, MetaOp, MetaEntry, is_leader, has_id, update_at, ids, others,
  new_nodes, new_node, new_group, start_election, propose, tick, set_reachable, elected, tick_at,
  commit_at, commit_all, send_append, send_appends, append_entries, reply_append, acknowledge,
  passes, set_node_reachable, quorum,
}
use shanshui_cunji.RaftMeta.Steps.{
  Step, Step-Same, Step-commit_all, Step-acknowledge, Step-append_entries, Step-set_node_reachable,
}
use shanshui_cunji.RaftMeta.Group.{
  Occurs, All-Occurs, update_at-Steps, Inv, Inv-Steps, Nobody, AreDistinct,
}
use shanshui_cunji.RaftMeta.Safety.{Inv-wider, final-Inv}

pub data Call : Type 0 where
  call_election : ℕ → Call
  call_propose : ℕ → MetaOp → Call
  call_tick : ℕ → Call
  call_set_reachable : ℕ → Bool → Call
  -- The clock shows another time.
  time_is : ℕ → Call

unfoldable pub after_call : Call → RaftMetaGroup → RaftMetaGroup
after_call (call_election id) g = (start_election id g).1
after_call (call_propose id op) g = (propose id op g).1
after_call (call_tick id) g = (tick id g).1
after_call (call_set_reachable id reachable) g = (set_reachable id reachable g).1
after_call (time_is t) g = record g { now = t }

unfoldable pub after_calls : List Call → RaftMetaGroup → RaftMetaGroup
after_calls [] g = g
after_calls (c ∷ cs) g = after_calls cs (after_call c g)

every : (Q : RaftMetaNode → Type 0) (ns : List RaftMetaNode) → ((n : RaftMetaNode) → Q n) → All Q ns
every Q [] f = tt
every Q (n ∷ ns) f = (f n, every Q ns f)

-- A change of one node that makes no leader.
Inv-update_at :
    (k id : ℕ) (f : RaftMetaNode → RaftMetaNode) (ns : List RaftMetaNode)
    → ((n : RaftMetaNode) → Step Nobody k n (f n))
    → Inv k ns
    → Inv k (update_at id f ns)
Inv-update_at k id f ns h inv =
    Inv-Steps k ns (update_at id f ns) (update_at-Steps Nobody k id f ns (every _ ns (λ n e. h n)))
      inv

election-Inv :
    (k y : ℕ) (g : RaftMetaGroup)
    → suc k < 2 ^ 64
    → Inv k g.nodes
    → Inv (suc k) (start_election y g).1.nodes
unfolding start_election quorum
election-Inv k y g small inv = elim (Option-cases (find (has_id y) g.nodes)) [
  | inl e ↦ rw e (Inv-wider k g.nodes inv)
  | inr (n, e) ↦ rw e (elim (Bool-cases (is_leader n.role)) [
    | inl l ↦ rw l (Inv-wider k g.nodes inv)
    | inr l ↦ rw l (final-Inv k y n g.nodes inv e small)
  ])
]

elected-nodes : (id : ℕ) (r : Result Bool × RaftMetaGroup) → (elected id r).1 ≡ r.1
elected-nodes id (ok true, g) = refl
elected-nodes id (ok false, g) = refl
elected-nodes id (err e, g) = refl
elected-nodes id (panic, g) = refl

tick-Inv :
    (k y : ℕ) (g : RaftMetaGroup) → suc k < 2 ^ 64 → Inv k g.nodes → Inv (suc k) (tick y g).1.nodes
unfolding tick
tick-Inv k y g small inv = elim (Option-cases (find (has_id y) g.nodes)) [
  | inl e ↦ rw e same
  | inr (n, e) ↦ rw e (at n)
]
  where
    same : Inv (suc k) g.nodes
    same = Inv-wider k g.nodes inv

    at : (n : RaftMetaNode) → Inv (suc k) (tick_at y (some n) g).1.nodes
    at n = elim (Bool-cases (not n.reachable)) [
      | inl r ↦ rw r same
      | inr r ↦ rw r (elim (Bool-cases (is_leader n.role)) [
        | inl l ↦ rw l same
        | inr l ↦ rw l (elim (Bool-cases (leb g.heartbeat_timeout (g.now - n.last_heartbeat))) [
          | inl d ↦ rw d (
              subst (λ (x : RaftMetaGroup). Inv (suc k) x.nodes)
                (sym (elected-nodes y (start_election y g))) (election-Inv k y g small inv))
          | inr d ↦ rw d same
        ])
      ])
    ]

send_append-Inv :
    (k from to term : ℕ) (entries : List MetaEntry) (now : ℕ) (ns : List RaftMetaNode)
    → term ≤ k
    → Inv k ns
    → Inv k (send_append from to term entries now ns)
unfolding send_append
send_append-Inv k from to term entries now ns h inv = elim (Bool-cases (passes from to ns)) [
  | inr e ↦ rw e inv
  | inl e ↦ rw e (elim (Option-cases (find (has_id to) ns)) [
    | inl f ↦ rw f inv
    | inr (n, f) ↦ rw f (
        reply (update_at to (λ m. (append_entries term from entries now m).1) ns)
          (append_entries term from entries now n).0
          (Inv-update_at k to (λ m. (append_entries term from entries now m).1) ns
            (λ m. Step-append_entries Nobody k term from entries now m h) inv))
  ])
]
  where
    reply :
        (ms : List RaftMetaNode) (accepted : Bool)
        → Inv k ms
        → Inv k (reply_append to from accepted ms)
    reply ms accepted i = elim (Bool-cases (passes to from ms)) [
      | inl e ↦ rw e (
          Inv-update_at k from (acknowledge accepted) ms (λ m. Step-acknowledge Nobody k accepted m)
            i)
      | inr e ↦ rw e i
    ]

send_appends-Inv :
    (tos : List ℕ) (k from term : ℕ) (entries : List MetaEntry) (now : ℕ) (ns : List RaftMetaNode)
    → term ≤ k
    → Inv k ns
    → Inv k (send_appends from tos term entries now ns)
unfolding send_appends
send_appends-Inv [] k from term entries now ns h inv = inv
send_appends-Inv (to ∷ tos) k from term entries now ns h inv =
    send_appends-Inv tos k from term entries now _ h
      (send_append-Inv k from to term entries now ns h inv)

find-All :
    (Q : RaftMetaNode → Type 0) (id : ℕ) (ns : List RaftMetaNode) (n : RaftMetaNode)
    → All Q ns
    → find (has_id id) ns ≡ some n
    → Q n
find-All Q id [] n h e = absurd (ground arith)
find-All Q id (m ∷ ns) n (h, hs) e = elim (Bool-cases (m.id == id)) [
  | inl here ↦
      let found : ◌≡◌ {A = Option RaftMetaNode} (some m) (some n) = rw here at e in
      let same : m ≡ n = cc in subst Q same h
  | inr there ↦ find-All Q id ns n hs (rw there at e)
]

propose-Inv :
    (k id : ℕ) (op : MetaOp) (g : RaftMetaGroup) → Inv k g.nodes → Inv k (propose id op g).1.nodes
unfolding propose
propose-Inv k id op g inv = elim (Option-cases (find (has_id id) g.nodes)) [
  | inl e ↦ rw e inv
  | inr (n, e) ↦ rw e (committed (sent n e))
]
  where
    logged : RaftMetaNode → List RaftMetaNode
    logged n =
        update_at id (λ m. record m { log = m.log ++ (record { term = n.term; op = op } ∷ []) })
          g.nodes

    sent :
        (n : RaftMetaNode)
        → find (has_id id) g.nodes ≡ some n
        → Inv k (
            send_appends id
              (others id (ids (retain (λ m. m.reachable) (logged n))))
              n.term
              (record { term = n.term; op = op } ∷ [])
              g.now
              (logged n))
    sent n e =
        send_appends-Inv _ k id n.term _ g.now (logged n)
          (find-All (λ m. m.term ≤ k) id g.nodes n inv.terms e)
          (Inv-update_at k id _ g.nodes
            (λ m.
              Step-Same Nobody k m _ (record { id = refl; role = refl; term = refl; vote = refl }))
            inv)

    committed :
        {ns : List RaftMetaNode}
        → Inv k ns
        → Inv k (commit_at id (find (has_id id) ns) g ns).1.nodes
    committed {ns} i = elim (Option-cases (find (has_id id) ns)) [
      | inl e ↦ rw e i
      | inr (n, e) ↦
          rw e (Inv-update_at k id (λ m. (commit_all m).1) ns (λ m. Step-commit_all Nobody k m) i)
    ]

set_reachable-Inv :
    (k id : ℕ) (reachable : Bool) (g : RaftMetaGroup)
    → Inv k g.nodes
    → Inv k (set_reachable id reachable g).1.nodes
unfolding set_reachable
set_reachable-Inv k id reachable g inv = elim (Option-cases (find (has_id id) g.nodes)) [
  | inl e ↦ rw e inv
  | inr (n, e) ↦ rw e (
      Inv-update_at k id (set_node_reachable reachable) g.nodes
        (λ m. Step-set_node_reachable Nobody k reachable m) inv)
]

call-Inv :
    (k : ℕ) (c : Call) (g : RaftMetaGroup)
    → suc k < 2 ^ 64
    → Inv k g.nodes
    → Inv (suc k) (after_call c g).nodes
unfolding after_call
call-Inv k (call_election id) g small inv = election-Inv k id g small inv
call-Inv k (call_propose id op) g small inv = Inv-wider k _ (propose-Inv k id op g inv)
call-Inv k (call_tick id) g small inv = tick-Inv k id g small inv
call-Inv k (call_set_reachable id reachable) g small inv =
    Inv-wider k _ (set_reachable-Inv k id reachable g inv)
call-Inv k (time_is t) g small inv = Inv-wider k g.nodes inv

calls-Inv :
    (cs : List Call) (k : ℕ) (g : RaftMetaGroup)
    → k + length cs < 2 ^ 64
    → Inv k g.nodes
    → Inv (k + length cs) (after_calls cs g).nodes
unfolding after_calls
calls-Inv [] k g small inv = let z : k + 0 ≡ k = omega arith in rw z inv
calls-Inv (c ∷ cs) k g small inv =
    let z : k + suc (length cs) ≡ suc k + length cs = omega arith in
    rw z (calls-Inv cs (suc k) (after_call c g) (omega arith) (call-Inv k c g (omega arith) inv))

-- A group as it is created.
absent : (i : ℕ) (ns : List RaftMetaNode) → any (has_id i) ns ≡ false → contains (ids ns) i ≡ false
absent i [] h = refl
absent i (n ∷ ns) h = ground (arith, absent i ns)

new-AreDistinct :
    (is : List ℕ) (seed : MetaCenter) (now : ℕ) → AreDistinct (ids (new_nodes is seed now))
unfolding new_nodes new_node
new-AreDistinct [] seed now = tt
new-AreDistinct (i ∷ is) seed now = elim (Bool-cases (any (has_id i) (new_nodes is seed now))) [
  | inl e ↦ rw e (new-AreDistinct is seed now)
  | inr e ↦ rw e (absent i (new_nodes is seed now) e, new-AreDistinct is seed now)
]

new_quiet :
    (is : List ℕ) (seed : MetaCenter) (now : ℕ)
    → All (λ n. (n.term ≤ 0) × (is_leader n.role ≡ false)) (new_nodes is seed now)
unfolding new_nodes new_node
new_quiet [] seed now = tt
new_quiet (i ∷ is) seed now = elim (Bool-cases (any (has_id i) (new_nodes is seed now))) [
  | inl e ↦ rw e (new_quiet is seed now)
  | inr e ↦ rw e ((omega arith, refl), new_quiet is seed now)
]

new-Inv : (is : List ℕ) (seed : MetaCenter) (now : ℕ) → Inv 0 (new_nodes is seed now)
new-Inv is seed now =
    let quiet = new_quiet is seed now in
    let none_leads : (n : RaftMetaNode)
        → Occurs n (new_nodes is seed now)
        → is_leader n.role ≡ false =
      λ n at.
        (All-Occurs (λ n. (n.term ≤ 0) × (is_leader n.role ≡ false)) (new_nodes is seed now) n quiet
          at).1 in
    record {
      apart = new-AreDistinct is seed now;
      terms = All-map (new_nodes is seed now) (λ n h. h.0) quiet;
      backed = λ n at l. absurd (ground (arith, none_leads n at));
      unique = λ m n om on lm ln e. absurd (ground (arith, none_leads m om));
    }

-- No two nodes lead in the same term, after any sequence of fewer than 2^64 calls of a new group:
-- elections, proposals at any node, ticks, partitions and healings, in any order and at any times.
pub one_leader_per_term :
    (is : List ℕ) (seed : MetaCenter) (now : ℕ) (cs : List Call) (m n : RaftMetaNode)
    → length cs < 2 ^ 64
    → Occurs m (after_calls cs (new_group is seed now)).nodes
    → Occurs n (after_calls cs (new_group is seed now)).nodes
    → is_leader m.role ≡ true
    → is_leader n.role ≡ true
    → m.term ≡ n.term
    → m.id ≡ n.id
unfolding new_group
one_leader_per_term is seed now cs m n small om on lm ln e =
    (calls-Inv cs 0 (new_group is seed now) (omega arith) (new-Inv is seed now)).unique m n om on lm
      ln e
