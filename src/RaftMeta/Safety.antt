-- ===== src/RaftMeta/Safety.antt =====
-- Whatever is called, no term has two leaders.
use mathlib.Core.Path.{subst}
use shanshui_cunji.Prelude.{
  ℕ, suc, ◌+◌, ◌%◌, ◌^◌, ◌≤◌, ◌<◌, ◌≡◌, refl, sym, ap, ◌∙◌, true, false, Option, none, some, List,
  [], ◌∷◌, ◌==◌, length, find, contains, All-map, arith, Bool-cases, inl, inr, ◌⊎◌,
}
use shanshui_cunji.RaftMeta.{
  RaftMetaNode, is_leader, has_id, update_at, ids, others, quorum_of, campaign, request_votes,
}
use shanshui_cunji.RaftMeta.Steps.{voted_is, is_bound, Step-campaign}
use shanshui_cunji.RaftMeta.Group.{
  Occurs, All-Occurs, count, count_mono, count-disjoint, Steps, Steps-refl, Steps-ids, Steps-length,
  Steps-terms, Steps-Occurs, Steps-count, update_at-Steps, AreDistinct, Inv, Inv-Steps, Nobody,
}
use shanshui_cunji.RaftMeta.Ballots.{asked_voter, Chosen, Owns, Owns-more, count_granted}
use shanshui_cunji.RaftMeta.Election.{Going, AreApart, request_votes-Going}

pub Inv-wider : (k : ℕ) (ns : List RaftMetaNode) → Inv k ns → Inv (suc k) ns
Inv-wider k ns inv = record {
  apart = inv.apart;
  terms = All-map ns (λ n h. omega arith) inv.terms;
  backed = inv.backed;
  unique = inv.unique;
}

contains-others : (y p : ℕ) (is : List ℕ) → contains is p ≡ false → contains (others y is) p ≡ false
contains-others y p [] h = refl
contains-others y p (i ∷ is) h = ground (arith, contains-others y p is)

not_others : (y : ℕ) (is : List ℕ) → contains (others y is) y ≡ false
not_others y [] = refl
not_others y (i ∷ is) = ground (arith, not_others y is)

AreApart-others : (y : ℕ) (is : List ℕ) → AreDistinct is → AreApart y (others y is)
AreApart-others y [] d = tt
AreApart-others y (i ∷ is) (d, ds) = elim (Bool-cases (i == y)) [
  | inl e ↦ rw e (AreApart-others y is ds)
  | inr e ↦ rw e (e, contains-others y i is d, AreApart-others y is ds)
]

module _ (y : ℕ) (n0 : RaftMetaNode) where
  abbrev t : ℕ
  t = (campaign n0).term

  -- Without the candidate's id there is nothing to say of its count.
  Owns-absent :
      (q c : ℕ) (ns : List RaftMetaNode)
      → contains (ids ns) y ≡ false
      → Owns y t q c (update_at y campaign ns)
  unfolding update_at
  Owns-absent q c [] h = tt
  Owns-absent q c (n ∷ ns) h =
      let other : (n.id == y) ≡ false = ground arith in
      rw other (λ e. absurd (ground arith), Owns-absent q c ns (ground arith))

  Owns-campaign :
      (q : ℕ) (ns : List RaftMetaNode)
      → AreDistinct (ids ns)
      → find (has_id y) ns ≡ some n0
      → Owns y t q 1 (update_at y campaign ns)
  unfolding update_at campaign
  Owns-campaign q [] d e = cc
  Owns-campaign q (n ∷ ns) (d, ds) e = elim (Bool-cases (n.id == y)) [
    | inl here ↦
        let found : ◌≡◌ {A = Option RaftMetaNode} (some n) (some n0) = rw here at e in
        let same : n ≡ n0 = cc in
        let i : n.id ≡ y = ground arith in
        rw here (
          λ h. record {
            here = ap (λ (x : RaftMetaNode). (x.term + 1) % 2 ^ 64) same;
            counted = λ r. omega arith;
            won = λ r. absurd (ground arith);
          },
          Owns-absent q 1 ns (rw i at d),
        )
    | inr there ↦ rw there (λ h. absurd (ground arith), Owns-campaign q ns ds (rw there at e))
  ]

-- An election of a node that is there and is no leader.
module _ (k y : ℕ) (n0 : RaftMetaNode) (ns : List RaftMetaNode) (inv : Inv k ns)
    (found : find (has_id y) ns ≡ some n0) (small : suc k < 2 ^ 64) where
  abbrev term : ℕ
  term = (campaign n0).term

  abbrev start : List RaftMetaNode
  start = update_at y campaign ns

  abbrev peers : List ℕ
  peers = others y (ids start)

  abbrev final : List RaftMetaNode
  final = request_votes (quorum_of ns) y peers term start

  campaign-Steps : Steps Nobody (suc k) ns start
  campaign-Steps =
      update_at-Steps Nobody (suc k) y campaign ns
        (All-map ns (λ n h e. Step-campaign Nobody (suc k) n (omega arith) small) inv.terms)

  start-Inv : Inv (suc k) start
  start-Inv = Inv-Steps (suc k) ns start campaign-Steps (Inv-wider k ns inv)

  found-Occurs : (ms : List RaftMetaNode) → find (has_id y) ms ≡ some n0 → Occurs n0 ms
  found-Occurs [] e = cc
  found-Occurs (m ∷ ms) e = elim (Bool-cases (m.id == y)) [
    | inl here ↦
        let same : ◌≡◌ {A = Option RaftMetaNode} (some m) (some n0) = rw here at e in
        let it : n0 ≡ m = cc in inl it
    | inr there ↦ inr (found-Occurs ms (rw there at e))
  ]

  found-id : (ms : List RaftMetaNode) → find (has_id y) ms ≡ some n0 → n0.id ≡ y
  found-id [] e = cc
  found-id (m ∷ ms) e = elim (Bool-cases (m.id == y)) [
    | inl here ↦
        let same : ◌≡◌ {A = Option RaftMetaNode} (some m) (some n0) = rw here at e in
        let it : m ≡ n0 = cc in
        let i : m.id ≡ y = ground arith in ap (λ (x : RaftMetaNode). x.id) (sym it) ∙ i
    | inr there ↦ found-id ms (rw there at e)
  ]

  term_small : term ≤ suc k
  unfolding campaign
  term_small =
      let h = All-Occurs (λ n. n.term ≤ k) ns n0 inv.terms (found-Occurs ns found) in omega arith

  own_vote : asked_voter y term peers (campaign n0) ≡ true
  unfolding campaign
  own_vote =
      let i = found-id ns found in
      let not_asked : contains peers n0.id ≡ false =
        ap (λ j. contains peers j) i ∙ not_others y (ids start) in
      ground (arith, not_asked, i)

  going : Going y term (suc k) (quorum_of ns) [] start final
  going =
      request_votes-Going y term (suc k) (quorum_of ns) peers start start term_small
        (AreApart-others y (ids start) start-Inv.apart)
        (record {
          steps = Steps-refl (Chosen y term) (suc k) start;
          owns =
              Owns-more y term (quorum_of ns) 1 _ start
                (omega (arith, count_granted y term y peers campaign ns n0 found own_vote))
                (Owns-campaign y n0 (quorum_of ns) ns inv.apart found);
        })

  final-length : length final ≡ length ns
  final-length =
      Steps-length (Chosen y term) (suc k) start final going.steps
      ∙ Steps-length Nobody (suc k) ns start campaign-Steps

  -- A leader of before, or the candidate with a quorum of votes.
  Origin : RaftMetaNode → Type 0
  Origin m =
      ((n : RaftMetaNode) × Occurs n start
        × (is_leader n.role ≡ true)
        × (m.id ≡ n.id)
        × (m.term ≡ n.term))
      ⊎ ((m.id ≡ y) × (m.term ≡ term) × (quorum_of ns ≤ count (asked_voter y term []) final))

  origin : (m : RaftMetaNode) → Occurs m final → is_leader m.role ≡ true → Origin m
  unfolding Origin
  origin m at h =
      let (n, from, s) = Steps-Occurs (Chosen y term) (suc k) start final m going.steps at in
      elim (s.lead h) [
        | inl (l, e) ↦ inl (n, from, l, s.same_id, e)
        | inr (i, e) ↦
            let own = All-Occurs _ final m going.owns at (ground arith) in inr (i, e, own.won h)
      ]

  voters_bound : count (asked_voter y term []) final ≤ count (is_bound y term) final
  voters_bound = count_mono (asked_voter y term []) (is_bound y term) final (λ n h. ground arith)

  final-backed :
      (m : RaftMetaNode)
      → Occurs m final
      → is_leader m.role ≡ true
      → quorum_of final ≤ count (is_bound m.id m.term) final
  unfolding Origin
  final-backed m at h = elim (origin m at h) [
    | inl (n, from, l, i, e) ↦
        let b = start-Inv.backed n from l in
        rw (i, e, final-length)
          (omega (
            arith,
            Steps-count (Chosen y term) (suc k) n.id n.term start final going.steps,
            Steps-length Nobody (suc k) ns start campaign-Steps,
          ))
    | inr (i, e, q) ↦ rw (i, e, final-length) (omega (arith, voters_bound))
  ]

  voted_apart :
      (x : ℕ) (v : Option ℕ) → (x == y) ≡ false → voted_is y v ≡ true → voted_is x v ≡ false
  voted_apart x none h v = refl
  voted_apart x (some c) h v = ground arith

  -- Two quorums have a node in common.
  clash :
      (x : ℕ)
      → quorum_of ns ≤ count (is_bound x term) final
      → quorum_of ns ≤ count (asked_voter y term []) final
      → x ≡ y
  clash x a b = elim (Bool-cases (x == y)) [
    | inl e ↦ ground arith
    | inr e ↦
        let apart =
          count-disjoint (asked_voter y term []) (is_bound x term) final
            (λ n h. ground (arith, voted_apart x n.voted_for e)) in
        absurd (omega (arith, apart, final-length))
  ]

  leader-is_chosen :
      (a : RaftMetaNode)
      → Occurs a final
      → is_leader a.role ≡ true
      → a.term ≡ term
      → quorum_of ns ≤ count (asked_voter y term []) final
      → a.id ≡ y
  leader-is_chosen a at l e q =
      let b = final-backed a at l in
      let b' : quorum_of ns ≤ count (is_bound a.id a.term) final = omega (arith, b, final-length) in
      clash a.id (subst (λ v. quorum_of ns ≤ count (is_bound a.id v) final) e b') q

  pub final-Inv : Inv (suc k) final
  unfolding Origin
  final-Inv = record {
    apart = rw (Steps-ids (Chosen y term) (suc k) start final going.steps) start-Inv.apart;
    terms = Steps-terms (Chosen y term) (suc k) start final going.steps start-Inv.terms;
    backed = final-backed;
    unique = λ a b oa ob la lb e. elim (origin a oa la) [
      | inr (i, v, q) ↦ i ∙ sym (leader-is_chosen b ob lb (sym e ∙ v) q)
      | inl (x, fx, lx, ix, ex) ↦ elim (origin b ob lb) [
        | inr (j, w, q) ↦ leader-is_chosen a oa la (e ∙ w) q ∙ sym j
        | inl (z, fz, lz, jz, ez) ↦ ix ∙ start-Inv.unique x z fx fz lx lz (sym ex ∙ e ∙ ez) ∙ sym jz
      ]
    ];
  }
