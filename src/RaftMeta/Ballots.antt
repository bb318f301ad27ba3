-- ===== src/RaftMeta/Ballots.antt =====
-- One vote of an election: the votes that a candidate counts are votes of nodes.
use mathlib.Core.Path.{subst}
use shanshui_cunji.Prelude.{
  ℕ, suc, ◌+◌, ◌≤◌, ◌≡◌, refl, ◌∙◌, Bool, true, false, not, ◌&&◌, ◌||◌, Option, some, List, [], ◌∷◌,
  ltb, leb, ◌==◌, find, contains, All, All-map, arith, Bool-cases, inl, inr,
}
use shanshui_cunji.RaftMeta.{
  RaftMetaNode, is_leader, is_candidate, has_id, update_at, vote, may_vote, count_vote,
}
use shanshui_cunji.RaftMeta.Steps.{is_voter, Step, stay}
use shanshui_cunji.RaftMeta.Group.{count, Steps}

-- The votes for `y` in the term `t` of the nodes that are not still to be asked.
abbrev pub asked_voter : ℕ → ℕ → List ℕ → RaftMetaNode → Bool
asked_voter y t rest n = not (contains rest n.id) && is_voter y t n

module _ (y t : ℕ) where
  abbrev pub Chosen : RaftMetaNode → Type 0
  Chosen n = (n.id ≡ y) × (n.term ≡ t)

  Step-trans :
      (k : ℕ) (a b c : RaftMetaNode) → Step Chosen k a b → Step Chosen k b c → Step Chosen k a c
  Step-trans k a b c s u = record {
    same_id = u.same_id ∙ s.same_id;
    grow = λ x v h. u.grow x v (s.grow x v h);
    lead = λ h. elim (u.lead h) [
      | inl (l, e) ↦ elim (s.lead l) [
        | inl (l', e') ↦ inl (l', e ∙ e')
        | inr (i, v) ↦ inr (u.same_id ∙ i, e ∙ v)
      ]
      | inr ch ↦ inr ch
    ];
    bounded = λ h. u.bounded (s.bounded h);
  }

  pub Steps-trans :
      (k : ℕ) (ps bs cs : List RaftMetaNode)
      → Steps Chosen k ps bs
      → Steps Chosen k bs cs
      → Steps Chosen k ps cs
  Steps-trans k [] [] cs s u = u
  Steps-trans k [] (b ∷ bs) cs s u = absurd s
  Steps-trans k (a ∷ ps) [] cs s u = absurd s
  Steps-trans k (a ∷ ps) (b ∷ bs) [] s u = absurd u
  Steps-trans k (a ∷ ps) (b ∷ bs) (c ∷ cs) (s, ss) (u, us) =
      (Step-trans k a b c s u, Steps-trans k ps bs cs ss us)

  pub granted-is_voter :
      (n : RaftMetaNode) → (vote t y n).0 ≡ true → is_voter y t (vote t y n).1 ≡ true
  unfolding vote
  granted-is_voter n g = elim (Bool-cases (ltb t n.term)) [
    | inl late ↦ ground arith
    | inr here ↦ elim (Bool-cases (ltb n.term t)) [
      | inl later ↦ ground arith
      | inr same ↦ elim (Bool-cases (may_vote y n.voted_for)) [
        | inl may ↦ ground arith
        | inr other ↦ ground arith
      ]
    ]
  ]

  -- Whoever is asked, no vote of the others is lost.
  pub count-update_at :
      (p : ℕ) (rest : List ℕ) (f : RaftMetaNode → RaftMetaNode) (ns : List RaftMetaNode)
      → count (asked_voter y t (p ∷ rest)) ns ≤ count (asked_voter y t rest) (update_at p f ns)
  unfolding count update_at
  count-update_at p rest f [] = omega arith
  count-update_at p rest f (n ∷ ns) = ground (arith, count-update_at p rest f ns)

  -- And the vote of the one that is asked is one more.
  pub count_granted :
      (p : ℕ) (rest : List ℕ) (f : RaftMetaNode → RaftMetaNode) (ns : List RaftMetaNode)
      (n : RaftMetaNode)
      → find (has_id p) ns ≡ some n
      → asked_voter y t rest (f n) ≡ true
      → suc (count (asked_voter y t (p ∷ rest)) ns)
        ≤ count (asked_voter y t rest) (update_at p f ns)
  unfolding count update_at
  count_granted p rest f [] n e v = cc
  count_granted p rest f (m ∷ ns) n e v = elim (Bool-cases (m.id == p)) [
    | inl here ↦
        let found : ◌≡◌ {A = Option RaftMetaNode} (some m) (some n) = rw here at e in
        let same : n ≡ m = cc in
        let v' : asked_voter y t rest (f m) ≡ true =
          subst (λ x. asked_voter y t rest (f x) ≡ true) same v in
        ground (arith, count-update_at p rest f ns)
    | inr there ↦ ground (arith, count_granted p rest f ns n)
  ]

  -- What the candidate's node says, when `c` nodes have voted for it.
  pub record Own (q c : ℕ) (n : RaftMetaNode) : Type 0 where
    pub here : n.term ≡ t
    pub counted : is_candidate n.role ≡ true → n.votes ≤ c
    pub won : is_leader n.role ≡ true → q ≤ c

  abbrev pub Owns : ℕ → ℕ → List RaftMetaNode → Type 0
  Owns q c ns = All (λ n. (n.id == y) ≡ true → Own q c n) ns

  pub Owns-more : (q c c' : ℕ) (ns : List RaftMetaNode) → c ≤ c' → Owns q c ns → Owns q c' ns
  Owns-more q c c' ns h o =
      All-map ns
        (λ n f e.
          let w = f e in
          record {
            here = w.here;
            counted = λ r. omega (arith, w.counted r);
            won = λ r. omega (arith, w.won r);
          })
        o

  pub Owns-asked :
      (q c p : ℕ) (f : RaftMetaNode → RaftMetaNode) (ns : List RaftMetaNode)
      → (p == y) ≡ false
      → ((n : RaftMetaNode) → (f n).id ≡ n.id)
      → Owns q c ns
      → Owns q c (update_at p f ns)
  unfolding update_at
  Owns-asked q c p f [] ne same o = tt
  Owns-asked q c p f (n ∷ ns) ne same (o, os) = elim (Bool-cases (n.id == p)) [
    | inl e ↦ rw e (λ h. absurd (ground (arith, same n)), Owns-asked q c p f ns ne same os)
    | inr e ↦ rw e (o, Owns-asked q c p f ns ne same os)
  ]

  Own-count_vote :
      (q c c' term : ℕ) (granted : Bool) (n : RaftMetaNode)
      → c ≤ c'
      → (granted ≡ true → suc c ≤ c')
      → Own q c n
      → Own q c' (count_vote q term granted n)
  unfolding count_vote
  Own-count_vote q c c' term granted n le more o =
      elim (Bool-cases (not (term == n.term) || (not (is_candidate n.role) || not granted))) [
        | inl e ↦ rw e (record {
          here = o.here;
          counted = λ r. omega (arith, o.counted r);
          won = λ r. omega (arith, o.won r);
        })
        | inr e ↦
            let voter : granted ≡ true = ground arith in
            let room : n.votes ≤ c = o.counted (ground arith) in
            rw e (elim (Bool-cases (leb q (n.votes + 1))) [
              | inl f ↦ rw f (record {
                here = o.here;
                counted = λ r. absurd (ground arith);
                won = λ r. ground (arith, more voter);
              })
              | inr f ↦ rw f (record {
                here = o.here;
                counted = λ r. omega (arith, more voter);
                won = λ r. omega (arith, o.won r);
              })
            ])
      ]

  pub Step-count_vote :
      (k q c term : ℕ) (granted : Bool) (n : RaftMetaNode)
      → n.id ≡ y
      → Own q c n
      → Step Chosen k n (count_vote q term granted n)
  unfolding count_vote
  Step-count_vote k q c term granted n e o =
      elim (Bool-cases (not (term == n.term) || (not (is_candidate n.role) || not granted))) [
        | inl f ↦ rw f (stay Chosen k n)
        | inr f ↦ rw f (elim (Bool-cases (leb q (n.votes + 1))) [
          | inl g ↦ rw g (record {
            same_id = refl;
            grow = λ x v h. h;
            lead = λ h. inr (e, o.here);
            bounded = λ h. h;
          })
          | inr g ↦ rw g (record {
            same_id = refl;
            grow = λ x v h. h;
            lead = λ h. inl (h, refl);
            bounded = λ h. h;
          })
        ])
      ]

  count_vote_keeps :
      (q term : ℕ) (granted : Bool) (rest : List ℕ) (n : RaftMetaNode)
      → asked_voter y t rest (count_vote q term granted n) ≡ asked_voter y t rest n
  unfolding count_vote
  count_vote_keeps q term granted rest n =
      elim (Bool-cases (not (term == n.term) || (not (is_candidate n.role) || not granted))) [
        | inl f ↦ rw f refl
        | inr f ↦
            rw f (elim (Bool-cases (leb q (n.votes + 1))) [ inl g ↦ rw g refl | inr g ↦ rw g refl ])
      ]

  pub counts_kept :
      (q term : ℕ) (granted : Bool) (rest : List ℕ) (ns : List RaftMetaNode)
      → count (asked_voter y t rest) (update_at y (count_vote q term granted) ns)
        ≡ count (asked_voter y t rest) ns
  unfolding count update_at
  counts_kept q term granted rest [] = refl
  counts_kept q term granted rest (n ∷ ns) = elim (Bool-cases (n.id == y)) [
    | inl e ↦
        rw (e, count_vote_keeps q term granted rest n, counts_kept q term granted rest ns) refl
    | inr e ↦ rw (e, counts_kept q term granted rest ns) refl
  ]

  pub Owns-counted :
      (q c c' term : ℕ) (granted : Bool) (ns : List RaftMetaNode)
      → c ≤ c'
      → (granted ≡ true → suc c ≤ c')
      → Owns q c ns
      → Owns q c' (update_at y (count_vote q term granted) ns)
  unfolding update_at
  Owns-counted q c c' term granted [] le more o = tt
  Owns-counted q c c' term granted (n ∷ ns) le more (o, os) = elim (Bool-cases (n.id == y)) [
    | inl e ↦ rw e (
      λ h. Own-count_vote q c c' term granted n le more (o e),
      Owns-counted q c c' term granted ns le more os,
    )
    | inr e ↦ rw e (λ h. absurd (ground arith), Owns-counted q c c' term granted ns le more os)
  ]
