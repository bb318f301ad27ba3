-- ===== src/RaftMeta.antt =====
-- src/raft_meta.rs: the replicated metadata, as a group of nodes among which messages are passed at
-- once. The map of the nodes is a list with a node's `id` as its key, and is gone through in the
-- list's order, which stands for the map's. The clock is the field `now`.
pub mod Steps
pub mod Group
pub mod Ballots
pub mod Safety
pub mod Calls
pub mod Commit
pub mod Election
use Prim.Native.String.{String}
use shanshui_cunji.Prelude.{
  ℕ, zero, suc, ◌+◌, ◌-◌, ◌/◌, ◌%◌, ◌^◌, Bool, true, false, not, ◌&&◌, ◌||◌, Option, none, some,
  List, [], ◌∷◌, ◌++◌, ltb, leb, ◌==◌, if◌then◌else◌, length, find, any, retain, map, get_elem?,
}
use shanshui_cunji.Errors.{Error, Result, ok, err, panic}
use shanshui_cunji.Meta.{NodeInfo, MetaCenter, register, unregister, master_node, map_node}

pub data RaftRole : Type 0 where
  follower candidate leader_role : RaftRole

pub data MetaOp : Type 0 where
  register_node : (node addr role : String) → MetaOp
  unregister_node : (node : String) → MetaOp

pub record MetaEntry : Type 0 where
  pub term : ℕ
  pub op : MetaOp

pub record RaftMetaNode : Type 0 where
  pub id : ℕ
  pub role : RaftRole
  pub term : ℕ
  pub voted_for : Option ℕ
  pub log : List MetaEntry
  pub commit : ℕ
  pub applied : ℕ
  pub leader : Option ℕ
  pub votes : ℕ
  pub state : MetaCenter
  pub last_heartbeat : ℕ
  pub reachable : Bool

pub record RaftMetaGroup : Type 0 where
  pub nodes : List RaftMetaNode
  pub heartbeat_timeout : ℕ
  pub now : ℕ

abbrev pub is_leader : RaftRole → Bool
is_leader leader_role = true
is_leader _ = false

abbrev pub is_candidate : RaftRole → Bool
is_candidate candidate = true
is_candidate _ = false

unfoldable pub new_node : ℕ → MetaCenter → ℕ → RaftMetaNode
new_node id seed now = record {
  id = id;
  role = follower;
  term = 0;
  voted_for = none;
  log = [];
  commit = 0;
  applied = 0;
  leader = none;
  votes = 0;
  state = seed;
  last_heartbeat = now;
  reachable = true;
}

abbrev pub has_id : ℕ → RaftMetaNode → Bool
has_id id n = n.id == id

-- A node for each of the ids; an id that occurs twice is one key of the map.
unfoldable pub new_nodes : List ℕ → MetaCenter → ℕ → List RaftMetaNode
new_nodes [] seed now = []
new_nodes (id ∷ ids) seed now =
    let rest = new_nodes ids seed now in
    if any (has_id id) rest then rest else new_node id seed now ∷ rest

unfoldable pub new_group : List ℕ → MetaCenter → ℕ → RaftMetaGroup
new_group ids seed now = record {
  nodes = new_nodes ids seed now;
  heartbeat_timeout = 100;
  now = now;
}

abbrev pub quorum_of : List RaftMetaNode → ℕ
quorum_of ns = length ns / 2 + 1

unfoldable pub quorum : RaftMetaGroup → ℕ
quorum g = quorum_of g.nodes

-- `nodes.get_mut(&id)` and a change of the node.
unfoldable pub update_at : ℕ → (RaftMetaNode → RaftMetaNode) → List RaftMetaNode → List RaftMetaNode
update_at id f [] = []
update_at id f (n ∷ ns) = (if n.id == id then f n else n) ∷ update_at id f ns

abbrev pub apply_op : MetaOp → MetaCenter → Result (Unit {0}) × MetaCenter
apply_op (register_node node addr role) m = register m node addr role
apply_op (unregister_node node) m = (ok tt, (unregister m node).1)

-- What an outcome of `register` means to the loop: the entry counts as applied, or the loop ends.
abbrev pub after_op :
    RaftMetaNode
    → (RaftMetaNode → Result (Unit {0}) × RaftMetaNode)
    → Result (Unit {0}) × MetaCenter
    → Result (Unit {0}) × RaftMetaNode
after_op n rest (ok u, m) = rest (record n { state = m; applied = n.applied + 1 })
after_op n rest (err e, m) = (err e, record n { state = m })
after_op n rest (panic, m) = (panic, n)

abbrev pub apply_entry :
    RaftMetaNode
    → (RaftMetaNode → Result (Unit {0}) × RaftMetaNode)
    → Option MetaEntry
    → Result (Unit {0}) × RaftMetaNode
apply_entry n rest none = (panic, n)
apply_entry n rest (some e) = after_op n rest (apply_op e.op n.state)

-- The loop of `apply_to_state`, one round for each entry to apply.
unfoldable pub apply_loop : ℕ → RaftMetaNode → Result (Unit {0}) × RaftMetaNode
apply_loop zero n = (ok tt, n)
apply_loop (suc rounds) n = apply_entry n (apply_loop rounds) (get_elem? n.log n.applied)

unfoldable pub apply_to_state : RaftMetaNode → Result (Unit {0}) × RaftMetaNode
apply_to_state n = apply_loop (n.commit - n.applied) n

abbrev pub is_reachable : Option RaftMetaNode → Bool
is_reachable none = false
is_reachable (some n) = n.reachable

-- The guard of `deliver`.
abbrev pub passes : ℕ → ℕ → List RaftMetaNode → Bool
passes from to ns = is_reachable (find (has_id from) ns) && is_reachable (find (has_id to) ns)

-- `handle_vote_resp` at the node that asked.
unfoldable pub count_vote : ℕ → ℕ → Bool → RaftMetaNode → RaftMetaNode
count_vote quorum term granted n =
    let counted = record n { votes = n.votes + 1 } in
    if not (term == n.term) || (not (is_candidate n.role) || not granted)
    then n
    else if leb quorum (n.votes + 1)
    then record n { role = leader_role; leader = some n.id; votes = 0 }
    else counted

abbrev pub may_vote : ℕ → Option ℕ → Bool
may_vote cand none = true
may_vote cand (some c) = c == cand

abbrev pub grant_vote : ℕ → RaftMetaNode → Bool × RaftMetaNode
grant_vote cand n =
    if may_vote cand n.voted_for then (true, record n { voted_for = some cand }) else (false, n)

-- `handle_vote_req` at the node that is asked: whether it grants, and what it is then.
unfoldable pub vote : ℕ → ℕ → RaftMetaNode → Bool × RaftMetaNode
vote term cand n =
    if ltb term n.term
    then (false, n)
    else grant_vote cand
        (if ltb n.term term then record n { term = term; voted_for = none; role = follower } else n)

abbrev pub reply_vote : ℕ → ℕ → ℕ → Bool → ℕ → List RaftMetaNode → List RaftMetaNode
reply_vote quorum from to granted term ns =
    if passes from to ns then update_at to (count_vote quorum term granted) ns else ns

abbrev pub vote_at : ℕ → ℕ → ℕ → ℕ → Option RaftMetaNode → List RaftMetaNode → List RaftMetaNode
vote_at quorum from to term none ns = ns
vote_at quorum from to term (some n) ns =
    reply_vote quorum to from (vote term from n).0 (vote term from n).1.term
      (update_at to (λ m. (vote term from m).1) ns)

-- A vote request, delivered, with the answer to it.
unfoldable pub request_vote : ℕ → ℕ → ℕ → ℕ → List RaftMetaNode → List RaftMetaNode
request_vote quorum from to term ns =
    if passes from to ns then vote_at quorum from to term (find (has_id to) ns) ns else ns

abbrev pub is_ok : Result (Unit {0}) → Bool
is_ok (ok u) = true
is_ok _ = false

-- `handle_append` at the follower.
unfoldable pub append_entries : ℕ → ℕ → List MetaEntry → ℕ → RaftMetaNode → Bool × RaftMetaNode
append_entries term leader entries now n =
    let n' = (if ltb n.term term then record n { term = term; role = follower } else n) in
    let done = apply_to_state (record n' {
      leader = some leader;
      last_heartbeat = now;
      log = n'.log ++ entries;
      commit = length (n'.log ++ entries);
    }) in
    if ltb term n.term then (false, n) else (is_ok done.0, done.1)

-- `handle_append_ack` at the leader.
unfoldable pub acknowledge : Bool → RaftMetaNode → RaftMetaNode
acknowledge accepted n =
    if accepted && is_leader n.role
    then (apply_to_state (record n { commit = length n.log })).1
    else n

abbrev pub reply_append : ℕ → ℕ → Bool → List RaftMetaNode → List RaftMetaNode
reply_append from to accepted ns =
    if passes from to ns then update_at to (acknowledge accepted) ns else ns

abbrev pub append_at :
    ℕ → ℕ → ℕ → List MetaEntry → ℕ → Option RaftMetaNode → List RaftMetaNode → List RaftMetaNode
append_at from to term entries now none ns = ns
append_at from to term entries now (some n) ns =
    reply_append to from (append_entries term from entries now n).0
      (update_at to (λ m. (append_entries term from entries now m).1) ns)

-- New entries, delivered, with the answer to them.
unfoldable pub send_append : ℕ → ℕ → ℕ → List MetaEntry → ℕ → List RaftMetaNode → List RaftMetaNode
send_append from to term entries now ns =
    if passes from to ns then append_at from to term entries now (find (has_id to) ns) ns else ns

abbrev pub ids : List RaftMetaNode → List ℕ
ids ns = map (λ n. n.id) ns

abbrev pub others : ℕ → List ℕ → List ℕ
others id is = retain (λ i. not (i == id)) is

-- The term is a `u64`.
unfoldable pub campaign : RaftMetaNode → RaftMetaNode
campaign n = record n {
  term = (n.term + 1) % 2 ^ 64;
  role = candidate;
  voted_for = some n.id;
  votes = 1;
}

unfoldable pub request_votes : ℕ → ℕ → List ℕ → ℕ → List RaftMetaNode → List RaftMetaNode
request_votes quorum from [] term ns = ns
request_votes quorum from (to ∷ tos) term ns =
    request_votes quorum from tos term (request_vote quorum from to term ns)

abbrev pub leads : Option RaftMetaNode → Bool
leads none = false
leads (some n) = is_leader n.role

-- An outcome, and the group after it.
abbrev pub Outcome : Type 0 → Type 0
Outcome A = Result A × RaftMetaGroup

abbrev pub elect_at : ℕ → Option RaftMetaNode → RaftMetaGroup → Outcome Bool
elect_at id none g = (panic, g)
elect_at id (some n) g =
    let asked = update_at id campaign g.nodes in
    let ns = request_votes (quorum g) id (others id (ids asked)) (campaign n).term asked in
    if is_leader n.role
    then (ok true, g)
    else (ok (leads (find (has_id id) ns)), record g { nodes = ns })

unfoldable pub start_election : ℕ → RaftMetaGroup → Outcome Bool
start_election id g = elect_at id (find (has_id id) g.nodes) g

unfoldable pub send_appends :
    ℕ → List ℕ → ℕ → List MetaEntry → ℕ → List RaftMetaNode → List RaftMetaNode
send_appends from [] term entries now ns = ns
send_appends from (to ∷ tos) term entries now ns =
    send_appends from tos term entries now (send_append from to term entries now ns)

unfoldable pub commit_all : RaftMetaNode → Result (Unit {0}) × RaftMetaNode
commit_all n = apply_to_state (record n { commit = length n.log })

abbrev pub commit_at :
    ℕ → Option RaftMetaNode → RaftMetaGroup → List RaftMetaNode → Outcome (Unit {0})
commit_at id none g ns = (panic, record g { nodes = ns })
commit_at id (some n) g ns =
    ((commit_all n).0, record g { nodes = update_at id (λ m. (commit_all m).1) ns })

abbrev pub propose_at : ℕ → MetaOp → Option RaftMetaNode → RaftMetaGroup → Outcome (Unit {0})
propose_at id op none g = (panic, g)
propose_at id op (some n) g =
    let entry : MetaEntry = record { term = n.term; op = op } in
    let logged = update_at id (λ m. record m { log = m.log ++ (entry ∷ []) }) g.nodes in
    let peers = others id (ids (retain (λ m. m.reachable) logged)) in
    let ns = send_appends id peers n.term (entry ∷ []) g.now logged in
    commit_at id (find (has_id id) ns) g ns

unfoldable pub propose : ℕ → MetaOp → RaftMetaGroup → Outcome (Unit {0})
propose id op g = propose_at id op (find (has_id id) g.nodes) g

abbrev pub elected : ℕ → Outcome Bool → Outcome (Option ℕ)
elected id (ok true, g) = (ok (some id), g)
elected id (ok false, g) = (ok none, g)
elected id (err e, g) = (err e, g)
elected id (panic, g) = (panic, g)

abbrev pub tick_at : ℕ → Option RaftMetaNode → RaftMetaGroup → Outcome (Option ℕ)
tick_at id none g = (panic, g)
tick_at id (some n) g =
    if not n.reachable
    then (ok none, g)
    else if is_leader n.role
    then (ok (some id), g)
    else if leb g.heartbeat_timeout (g.now - n.last_heartbeat)
    then elected id (start_election id g)
    else (ok none, g)

unfoldable pub tick : ℕ → RaftMetaGroup → Outcome (Option ℕ)
tick id g = tick_at id (find (has_id id) g.nodes) g

abbrev pub master_at : Option RaftMetaNode → Result (Option String)
master_at none = panic
master_at (some n) = ok (map_node (λ i. i.node_id) (master_node n.state))

unfoldable pub master : ℕ → RaftMetaGroup → Result (Option String)
master id g = master_at (find (has_id id) g.nodes)

abbrev pub role_at : Option RaftMetaNode → Result RaftRole
role_at none = panic
role_at (some n) = ok n.role

unfoldable pub role_of : ℕ → RaftMetaGroup → Result RaftRole
role_of id g = role_at (find (has_id id) g.nodes)

unfoldable pub set_node_reachable : Bool → RaftMetaNode → RaftMetaNode
set_node_reachable reachable n =
    if reachable
    then record n { reachable = true }
    else record n { role = follower; leader = none; reachable = false }

abbrev pub set_reachable_at : ℕ → Bool → Option RaftMetaNode → RaftMetaGroup → Outcome (Unit {0})
set_reachable_at id reachable none g = (panic, g)
set_reachable_at id reachable (some n) g =
    (ok tt, record g { nodes = update_at id (set_node_reachable reachable) g.nodes })

unfoldable pub set_reachable : ℕ → Bool → RaftMetaGroup → Outcome (Unit {0})
set_reachable id reachable g = set_reachable_at id reachable (find (has_id id) g.nodes) g
