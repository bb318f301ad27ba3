-- ===== src/RaftMeta/Steps.antt =====
-- What a message may change of a node, and what that means for a count of votes.
use shanshui_cunji.Prelude.{
  ℕ, zero, suc, ◌+◌, ◌-◌, ◌≤◌, ◌<◌, ◌^◌, ◌%◌, ◌≡◌, refl, Bool, true, false, ◌&&◌, ◌||◌, Option,
  none, some, List, ltb, ◌==◌, arith, Bool-cases, inl, inr, ◌⊎◌, get_elem?,
}
use shanshui_cunji.Errors.{Result, ok, err, panic}
use shanshui_cunji.Meta.{MetaCenter}
use shanshui_cunji.RaftMeta.{
  follower, MetaEntry, RaftMetaNode, is_leader, apply_op, after_op, apply_entry, apply_loop,
  apply_to_state, vote, may_vote, append_entries, acknowledge, campaign, commit_all,
  set_node_reachable,
}

abbrev pub voted_is : ℕ → Option ℕ → Bool
voted_is x none = false
voted_is x (some c) = c == x

-- The node votes for `x` in the term.
abbrev pub is_voter : ℕ → ℕ → RaftMetaNode → Bool
is_voter x t n = n.term == t && voted_is x n.voted_for

-- It does, or it is in a later term: it will vote for no other node in this one.
abbrev pub is_bound : ℕ → ℕ → RaftMetaNode → Bool
is_bound x t n = ltb t n.term || is_voter x t n

-- A change that leaves votes alone and makes no leaders but such as `P` says; terms stay below `k`.
pub record Step (P : RaftMetaNode → Type 0) (k : ℕ) (n n' : RaftMetaNode) : Type 0 where
  pub same_id : n'.id ≡ n.id
  pub grow : (x t : ℕ) → is_bound x t n ≡ true → is_bound x t n' ≡ true
  pub lead : is_leader n'.role ≡ true → ((is_leader n.role ≡ true) × (n'.term ≡ n.term)) ⊎ P n'
  pub bounded : n.term ≤ k → n'.term ≤ k

voted_is-may_vote :
    (x cand : ℕ) (v : Option ℕ) → voted_is x v ≡ true → may_vote cand v ≡ true → (cand == x) ≡ true
voted_is-may_vote x cand none h m = ground arith
voted_is-may_vote x cand (some c) h m = ground arith

-- A node that keeps its id, role, term and vote.
pub record Same (n n' : RaftMetaNode) : Type 0 where
  pub id : n'.id ≡ n.id
  pub role : n'.role ≡ n.role
  pub term : n'.term ≡ n.term
  pub vote : n'.voted_for ≡ n.voted_for

Same-refl : (n : RaftMetaNode) → Same n n
Same-refl n = record { id = refl; role = refl; term = refl; vote = refl }

after_op-Same :
    (n n' : RaftMetaNode) (rest : RaftMetaNode → Result (Unit {0}) × RaftMetaNode)
    (done : Result (Unit {0}) × MetaCenter)
    → Same n n'
    → ((m : RaftMetaNode) → Same n m → Same n (rest m).1)
    → Same n (after_op n' rest done).1
after_op-Same n n' rest (ok u, m) s h =
    h (record n' { state = m; applied = n'.applied + 1 })
      (record { id = s.id; role = s.role; term = s.term; vote = s.vote })
after_op-Same n n' rest (err e, m) s h = record {
  id = s.id;
  role = s.role;
  term = s.term;
  vote = s.vote;
}
after_op-Same n n' rest (panic, m) s h = s

apply_entry-Same :
    (n n' : RaftMetaNode) (rest : RaftMetaNode → Result (Unit {0}) × RaftMetaNode)
    (e : Option MetaEntry)
    → Same n n'
    → ((m : RaftMetaNode) → Same n m → Same n (rest m).1)
    → Same n (apply_entry n' rest e).1
apply_entry-Same n n' rest none s h = s
apply_entry-Same n n' rest (some e) s h = after_op-Same n n' rest (apply_op e.op n'.state) s h

apply_loop-Same : (rounds : ℕ) (n n' : RaftMetaNode) → Same n n' → Same n (apply_loop rounds n').1
unfolding apply_loop
apply_loop-Same zero n n' s = s
apply_loop-Same (suc rounds) n n' s =
    apply_entry-Same n n' (apply_loop rounds) (get_elem? n'.log n'.applied) s
      (λ m t. apply_loop-Same rounds n m t)

pub apply_to_state-Same : (n n' : RaftMetaNode) → Same n n' → Same n (apply_to_state n').1
unfolding apply_to_state
apply_to_state-Same n n' s = apply_loop-Same (n'.commit - n'.applied) n n' s

module _ (P : RaftMetaNode → Type 0) (k : ℕ) where
  pub stay : (n : RaftMetaNode) → Step P k n n
  stay n = record { same_id = refl; grow = λ x t h. h; lead = λ h. inl (h, refl); bounded = λ h. h }

  pub Step-Same : (n n' : RaftMetaNode) → Same n n' → Step P k n n'
  Step-Same n n' s = record {
    same_id = s.id;
    grow = λ x t h. rw (s.term, s.vote) h;
    lead = λ h. inl (rw (← s.role) h, s.term);
    bounded = λ h. omega (arith, s.term);
  }

  -- A node that steps back into a later term, with any vote.
  Step-later :
      (n n' : RaftMetaNode)
      → n'.id ≡ n.id
      → is_leader n'.role ≡ false
      → n.term < n'.term
      → n'.term ≤ k
      → Step P k n n'
  Step-later n n' a b c d = record {
    same_id = a;
    grow = λ x t h. ground arith;
    lead = λ h. absurd (ground arith);
    bounded = λ h. d;
  }

  Step-voted :
      (cand : ℕ) (n : RaftMetaNode)
      → may_vote cand n.voted_for ≡ true
      → Step P k n (record n { voted_for = some cand })
  Step-voted cand n may = record {
    same_id = refl;
    grow = λ x t h. ground (arith, voted_is-may_vote x cand n.voted_for);
    lead = λ h. inl (h, refl);
    bounded = λ h. h;
  }

  pub Step-vote :
      (cand : ℕ) (term : ℕ) (n : RaftMetaNode) → term ≤ k → Step P k n (vote term cand n).1
  unfolding vote
  Step-vote cand term n h = elim (Bool-cases (ltb term n.term)) [
    | inl late ↦ rw late (stay n)
    | inr here ↦ rw here (elim (Bool-cases (ltb n.term term)) [
      | inl later ↦ rw later (Step-later n _ refl refl (ground arith) h)
      | inr same ↦ rw same (elim (Bool-cases (may_vote cand n.voted_for)) [
        | inl may ↦ rw may (Step-voted cand n may)
        | inr other ↦ rw other (stay n)
      ])
    ])
  ]

  pub Step-campaign : (n : RaftMetaNode) → n.term < k → k < 2 ^ 64 → Step P k n (campaign n)
  unfolding campaign
  Step-campaign n h small =
      let next : (n.term + 1) % 2 ^ 64 ≡ n.term + 1 = omega arith in
      Step-later n _ refl refl (omega (arith, next)) (omega (arith, next))

  pub Step-set_node_reachable :
      (reachable : Bool) (n : RaftMetaNode) → Step P k n (set_node_reachable reachable n)
  unfolding set_node_reachable
  Step-set_node_reachable true n =
      Step-Same n _ (record { id = refl; role = refl; term = refl; vote = refl })
  Step-set_node_reachable false n = record {
    same_id = refl;
    grow = λ x t h. h;
    lead = λ h. absurd (ground arith);
    bounded = λ h. h;
  }

  pub Step-commit_all : (n : RaftMetaNode) → Step P k n (commit_all n).1
  unfolding commit_all
  Step-commit_all n =
      Step-Same n _
        (apply_to_state-Same n _ (record { id = refl; role = refl; term = refl; vote = refl }))

  pub Step-acknowledge : (accepted : Bool) (n : RaftMetaNode) → Step P k n (acknowledge accepted n)
  unfolding acknowledge
  Step-acknowledge accepted n = elim (Bool-cases (accepted && is_leader n.role)) [
    | inl e ↦ rw e (
        Step-Same n _
          (apply_to_state-Same n _ (record { id = refl; role = refl; term = refl; vote = refl })))
    | inr e ↦ rw e (stay n)
  ]

  pub Step-append_entries :
      (term leader : ℕ) (entries : List MetaEntry) (now : ℕ) (n : RaftMetaNode)
      → term ≤ k
      → Step P k n (append_entries term leader entries now n).1
  unfolding append_entries
  Step-append_entries term leader entries now n h = elim (Bool-cases (ltb term n.term)) [
    | inl late ↦ rw late (stay n)
    | inr here ↦ rw here (elim (Bool-cases (ltb n.term term)) [
      | inl later ↦ rw later (
          let n' = record n { term = term; role = follower } in
          let s =
            apply_to_state-Same n' _
              (record { id = refl; role = refl; term = refl; vote = refl }) in
          Step-later n _ s.id (rw s.role refl) (ground (arith, s.term)) (omega (arith, s.term)))
      | inr same ↦ rw same (
          Step-Same n _
            (apply_to_state-Same n _ (record { id = refl; role = refl; term = refl; vote = refl })))
    ])
  ]
