-- ===== src/RaftMeta/Election.antt =====
-- A whole election: who leads after it has a quorum of votes.
use mathlib.Core.Path.{subst}
use shanshui_cunji.Prelude.{
  ℕ, suc, ◌≤◌, ◌≡◌, ap, ◌∙◌, Bool, true, false, Option, some, List, [], ◌∷◌, ◌==◌, find, contains,
  All, All-map, arith, Bool-cases, Option-cases, inl, inr,
}
use shanshui_cunji.RaftMeta.{
  RaftMetaNode, has_id, update_at, vote, count_vote, passes, reply_vote, vote_at, request_vote,
  request_votes,
}
use shanshui_cunji.RaftMeta.Steps.{Step-vote}
use shanshui_cunji.RaftMeta.Group.{count, count_mono, Steps, update_at-Steps}
use shanshui_cunji.RaftMeta.Ballots.{
  asked_voter, Chosen, Steps-trans, granted-is_voter, count-update_at, count_granted, Owns,
  Owns-more, Owns-asked, Step-count_vote, counts_kept, Owns-counted,
}

-- Ids that are different from each other and from the candidate's.
abbrev pub AreApart : ℕ → List ℕ → Type 0
AreApart y [] = Unit
AreApart y (p ∷ ps) = ((p == y) ≡ false) × (contains ps p ≡ false) × AreApart y ps

module _ (y t k q : ℕ) where
  abbrev votes_in : List ℕ → List RaftMetaNode → ℕ
  votes_in rest ns = count (asked_voter y t rest) ns

  -- The nodes after some of the requests: steps from those at the start, and the candidate's count is
  -- covered by votes.
  pub record Going (rest : List ℕ) (start ns : List RaftMetaNode) : Type 0 where
    pub steps : Steps (Chosen y t) k start ns
    pub owns : Owns y t q (votes_in rest ns) ns

  votes_in_fewer :
      (p : ℕ) (rest : List ℕ) (ns : List RaftMetaNode) → votes_in (p ∷ rest) ns ≤ votes_in rest ns
  votes_in_fewer p rest ns =
      count_mono (asked_voter y t (p ∷ rest)) (asked_voter y t rest) ns (λ n h. ground arith)

  count_vote-Steps :
      (c term : ℕ) (granted : Bool) (ns : List RaftMetaNode)
      → Owns y t q c ns
      → Steps (Chosen y t) k ns (update_at y (count_vote q term granted) ns)
  count_vote-Steps c term granted ns o =
      update_at-Steps (Chosen y t) k y (count_vote q term granted) ns
        (All-map ns (λ n f e. Step-count_vote y t k q c term granted n (ground arith) (f e)) o)

  -- The answer to a request, given what it may add to the votes.
  reply-Going :
      (p c term : ℕ) (granted : Bool) (rest : List ℕ) (start ns : List RaftMetaNode)
      → Steps (Chosen y t) k start ns
      → Owns y t q c ns
      → c ≤ votes_in rest ns
      → (granted ≡ true → suc c ≤ votes_in rest ns)
      → Going rest start (reply_vote q p y granted term ns)
  reply-Going p c term granted rest start ns s o le more = elim (Bool-cases (passes p y ns)) [
    | inl e ↦ rw e (record {
      steps = Steps-trans y t k start ns _ s (count_vote-Steps c term granted ns o);
      owns =
          Owns-more y t q _ _ _ (omega (arith, counts_kept y t q term granted rest ns))
            (Owns-counted y t q c (votes_in rest ns) term granted ns le more o);
    })
    | inr e ↦ rw e (record { steps = s; owns = Owns-more y t q c _ ns le o })
  ]

  All-each :
      {Q : RaftMetaNode → Type 0} (ns : List RaftMetaNode) → ((n : RaftMetaNode) → Q n) → All Q ns
  All-each [] f = tt
  All-each (n ∷ ns) f = (f n, All-each ns f)

  find-has_id :
      (p : ℕ) (ns : List RaftMetaNode) (n : RaftMetaNode)
      → find (has_id p) ns ≡ some n
      → (n.id == p) ≡ true
  find-has_id p [] n e = cc
  find-has_id p (m ∷ ns) n e = elim (Bool-cases (m.id == p)) [
    | inl here ↦
        let found : ◌≡◌ {A = Option RaftMetaNode} (some m) (some n) = rw here at e in
        let same : m ≡ n = cc in subst (λ x. (x.id == p) ≡ true) same here
    | inr there ↦ find-has_id p ns n (rw there at e)
  ]

  abbrev asked : RaftMetaNode → RaftMetaNode
  asked m = (vote t y m).1

  asked-same_id : (n : RaftMetaNode) → (asked n).id ≡ n.id
  asked-same_id n = (Step-vote (Chosen y t) t y t n (omega arith)).same_id

  vote_at-Going :
      (p : ℕ) (rest : List ℕ) (start ns : List RaftMetaNode) (n : RaftMetaNode)
      → t ≤ k
      → (p == y) ≡ false
      → contains rest p ≡ false
      → find (has_id p) ns ≡ some n
      → Going (p ∷ rest) start ns
      → Going rest start (vote_at q y p t (some n) ns)
  vote_at-Going p rest start ns n small ne new e g =
      let voted : (m : RaftMetaNode)
          → (vote t y m).0 ≡ true
          → m.id ≡ p
          → asked_voter y t rest (asked m) ≡ true =
        λ m granted i.
          let skipped : contains rest (asked m).id ≡ false =
            ap (λ j. contains rest j) (asked-same_id m ∙ i) ∙ new in
          rw skipped (granted-is_voter y t m granted) in
      let moved : Steps (Chosen y t) k ns (update_at p asked ns) =
        update_at-Steps (Chosen y t) k p asked ns
          (All-each ns (λ m h. Step-vote (Chosen y t) k y t m small)) in
      reply-Going p (votes_in (p ∷ rest) ns) (asked n).term (vote t y n).0 rest start
        (update_at p asked ns) (Steps-trans y t k start ns (update_at p asked ns) g.steps moved)
        (Owns-asked y t q (votes_in (p ∷ rest) ns) p asked ns ne asked-same_id g.owns)
        (count-update_at y t p rest asked ns)
        (λ granted.
          count_granted y t p rest asked ns n e
            (voted n granted (ground (arith, find-has_id p ns n e))))

  request_vote-Going :
      (p : ℕ) (rest : List ℕ) (start ns : List RaftMetaNode)
      → t ≤ k
      → (p == y) ≡ false
      → contains rest p ≡ false
      → Going (p ∷ rest) start ns
      → Going rest start (request_vote q y p t ns)
  unfolding request_vote
  request_vote-Going p rest start ns small ne new g = elim (Bool-cases (passes y p ns)) [
    | inl e ↦ rw e (elim (Option-cases (find (has_id p) ns)) [
      | inl f ↦ rw f same
      | inr (n, f) ↦ rw f (vote_at-Going p rest start ns n small ne new f g)
    ])
    | inr e ↦ rw e same
  ]
    where
      same : Going rest start ns
      same = record {
        steps = g.steps;
        owns = Owns-more y t q _ _ ns (votes_in_fewer p rest ns) g.owns;
      }

  pub request_votes-Going :
      (ps : List ℕ) (start ns : List RaftMetaNode)
      → t ≤ k
      → AreApart y ps
      → Going ps start ns
      → Going [] start (request_votes q y ps t ns)
  unfolding request_votes
  request_votes-Going [] start ns small apart g = g
  request_votes-Going (p ∷ ps) start ns small (ne, new, apart) g =
      request_votes-Going ps start (request_vote q y p t ns) small apart
        (request_vote-Going p ps start ns small ne new g)
