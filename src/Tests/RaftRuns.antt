-- ===== src/Tests/RaftRuns.antt =====
-- A group of three nodes, whose first leader is cut off.
use shanshui_cunji.Prelude.{ℕ, ◌≡◌, refl, false, some, find, List, [], ◌∷◌, inl, inr, arith}
use shanshui_cunji.Meta.{new_meta, register}
use shanshui_cunji.RaftMeta.{
  RaftMetaNode, RaftMetaGroup, MetaOp, register_node, new_group, new_nodes, new_node,
  start_election, propose, set_reachable, update_at, has_id, apply_op, campaign, request_votes,
  request_vote, vote, count_vote, quorum, set_node_reachable,
}
use shanshui_cunji.RaftMeta.Calls.{
  Call, call_election, call_set_reachable, after_calls, after_call, one_leader_per_term,
}
use shanshui_cunji.RaftMeta.Commit.{Committed, propose_isolated}
use shanshui_cunji.Errors.{ok}

abbrev three : List ℕ
three = 1 ∷ 2 ∷ 3 ∷ []

abbrev calls : List Call
calls = call_election 1 ∷ call_set_reachable 1 false ∷ call_election 2 ∷ []

abbrev last_group : RaftMetaGroup
last_group = after_calls calls (new_group three (new_meta 4) 0)

abbrev second : List RaftMetaNode → RaftMetaNode
second (m ∷ (n ∷ ns)) = n
second ns = new_node 0 (new_meta 4) 0

abbrev first : List RaftMetaNode → RaftMetaNode
first (m ∷ ns) = m
first [] = new_node 0 (new_meta 4) 0

abbrev new_leader : RaftMetaNode
new_leader = second last_group.nodes

abbrev old_leader : RaftMetaNode
old_leader = first last_group.nodes

new_term : (new_leader.term ≡ 2) × (old_leader.term ≡ 1)
unfolding after_calls after_call new_group new_nodes new_node start_election set_reachable quorum
    campaign request_votes request_vote vote count_vote update_at set_node_reachable
new_term = (refl, refl)

one_leader_per_term_example : new_leader.id ≡ new_leader.id
unfolding after_calls after_call new_group new_nodes new_node start_election set_reachable quorum
    campaign request_votes request_vote vote count_vote update_at set_node_reachable
one_leader_per_term_example =
    one_leader_per_term three (new_meta 4) 0 calls new_leader new_leader (omega arith)
      (inr (inl refl)) (inr (inl refl)) refl refl refl

abbrev take_over : MetaOp
take_over = register_node "b" "" "master"

propose_isolated_example :
    ((propose 1 take_over last_group).0 ≡ (apply_op take_over old_leader.state).0)
    × ((m : RaftMetaNode) × (find (has_id 1) (propose 1 take_over last_group).1.nodes ≡ some m)
        × Committed old_leader take_over m)
    × (find (has_id 2) (propose 1 take_over last_group).1.nodes ≡ find (has_id 2) last_group.nodes)
unfolding after_calls after_call new_group new_nodes new_node start_election set_reachable quorum
    campaign request_votes request_vote vote count_vote update_at set_node_reachable
propose_isolated_example = propose_isolated 1 2 take_over last_group old_leader refl refl refl refl

-- The isolated old leader has its operation applied: it names the new master by itself.
take_over_applied : (propose 1 take_over last_group).0 ≡ ok tt
unfolding after_calls after_call new_group new_nodes new_node start_election set_reachable quorum
    campaign request_votes request_vote vote count_vote update_at set_node_reachable register
take_over_applied = propose_isolated_example.0
