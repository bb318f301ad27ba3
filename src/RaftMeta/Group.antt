-- ===== src/RaftMeta/Group.antt =====
-- The group as a whole: votes are counted over its nodes, and every leader has a quorum behind it.
use shanshui_cunji.Prelude.{
  ℕ, suc, ◌+◌, ◌≤◌, ◌≡◌, refl, sym, ap, ◌∙◌, Bool, true, false, List, [], ◌∷◌, ◌==◌, if◌then◌else◌,
  length, contains, All, arith, Bool-cases, inl, inr, ◌⊎◌,
}
use mathlib.Core.Path.{subst}
use shanshui_cunji.RaftMeta.{RaftMetaNode, is_leader, update_at, ids, quorum_of}
use shanshui_cunji.RaftMeta.Steps.{is_bound, Step, stay}

abbrev pub Occurs : RaftMetaNode → List RaftMetaNode → Type 0
Occurs n [] = ⊥
Occurs n (m ∷ ms) = (n ≡ m) ⊎ Occurs n ms

unfoldable pub count : (RaftMetaNode → Bool) → List RaftMetaNode → ℕ
count p [] = 0
count p (n ∷ ns) = let rest = count p ns in if p n then suc rest else rest

pub All-Occurs :
    (Q : RaftMetaNode → Type 0) (ns : List RaftMetaNode) (n : RaftMetaNode)
    → All Q ns
    → Occurs n ns
    → Q n
All-Occurs Q [] n h o = absurd o
All-Occurs Q (m ∷ ms) n (h, hs) (inl e) = subst Q (sym e) h
All-Occurs Q (m ∷ ms) n (h, hs) (inr o) = All-Occurs Q ms n hs o

-- No node counts for both.
pub count-disjoint :
    (p q : RaftMetaNode → Bool) (ns : List RaftMetaNode)
    → ((n : RaftMetaNode) → p n ≡ true → q n ≡ false)
    → count p ns + count q ns ≤ length ns
unfolding count
count-disjoint p q [] h = omega arith
count-disjoint p q (n ∷ ns) h = ground (arith, h n, count-disjoint p q ns h)

-- More nodes count for the second.
pub count_mono :
    (p q : RaftMetaNode → Bool) (ns : List RaftMetaNode)
    → ((n : RaftMetaNode) → p n ≡ true → q n ≡ true)
    → count p ns ≤ count q ns
unfolding count
count_mono p q [] h = omega arith
count_mono p q (n ∷ ns) h = ground (arith, h n, count_mono p q ns h)

-- The same nodes, each one changed by a step.
abbrev pub Steps : (RaftMetaNode → Type 0) → ℕ → List RaftMetaNode → List RaftMetaNode → Type 0
Steps P k [] [] = Unit
Steps P k [] (m ∷ ms) = ⊥
Steps P k (n ∷ ns) [] = ⊥
Steps P k (n ∷ ns) (m ∷ ms) = Step P k n m × Steps P k ns ms

module _ (P : RaftMetaNode → Type 0) (k : ℕ) where
  pub Steps-refl : (ns : List RaftMetaNode) → Steps P k ns ns
  Steps-refl [] = tt
  Steps-refl (n ∷ ns) = (stay P k n, Steps-refl ns)

  pub update_at-Steps :
      (id : ℕ) (f : RaftMetaNode → RaftMetaNode) (ns : List RaftMetaNode)
      → All (λ n. (n.id == id) ≡ true → Step P k n (f n)) ns
      → Steps P k ns (update_at id f ns)
  unfolding update_at
  update_at-Steps id f [] h = tt
  update_at-Steps id f (n ∷ ns) (h, hs) = elim (Bool-cases (n.id == id)) [
    | inl e ↦ rw e (h e, update_at-Steps id f ns hs)
    | inr e ↦ rw e (stay P k n, update_at-Steps id f ns hs)
  ]

  pub Steps-ids : (ns ms : List RaftMetaNode) → Steps P k ns ms → ids ms ≡ ids ns
  Steps-ids [] [] s = refl
  Steps-ids [] (m ∷ ms) s = absurd s
  Steps-ids (n ∷ ns) [] s = absurd s
  Steps-ids (n ∷ ns) (m ∷ ms) (s, ss) = λ i. s.same_id i ∷ Steps-ids ns ms ss i

  pub Steps-length : (ns ms : List RaftMetaNode) → Steps P k ns ms → length ms ≡ length ns
  Steps-length [] [] s = refl
  Steps-length [] (m ∷ ms) s = absurd s
  Steps-length (n ∷ ns) [] s = absurd s
  Steps-length (n ∷ ns) (m ∷ ms) (s, ss) = ap suc (Steps-length ns ms ss)

  pub Steps-terms :
      (ns ms : List RaftMetaNode)
      → Steps P k ns ms
      → All (λ n. n.term ≤ k) ns
      → All (λ n. n.term ≤ k) ms
  Steps-terms [] [] s h = tt
  Steps-terms [] (m ∷ ms) s h = absurd s
  Steps-terms (n ∷ ns) [] s h = absurd s
  Steps-terms (n ∷ ns) (m ∷ ms) (s, ss) (h, hs) = (s.bounded h, Steps-terms ns ms ss hs)

  -- Where a node comes from.
  pub Steps-Occurs :
      (ns ms : List RaftMetaNode) (m : RaftMetaNode)
      → Steps P k ns ms
      → Occurs m ms
      → (n : RaftMetaNode) × Occurs n ns × Step P k n m
  Steps-Occurs [] [] m s o = absurd o
  Steps-Occurs [] (x ∷ ms) m s o = absurd s
  Steps-Occurs (n ∷ ns) [] m s o = absurd s
  Steps-Occurs (n ∷ ns) (x ∷ ms) m (s, ss) (inl e) =
      (n, inl refl, subst (λ z. Step P k n z) (sym e) s)
  Steps-Occurs (n ∷ ns) (x ∷ ms) m (s, ss) (inr o) =
      let (y, at, t) = Steps-Occurs ns ms m ss o in (y, inr at, t)

  pub Steps-count :
      (x t : ℕ) (ns ms : List RaftMetaNode)
      → Steps P k ns ms
      → count (is_bound x t) ns ≤ count (is_bound x t) ms
  unfolding count
  Steps-count x t [] [] s = omega arith
  Steps-count x t [] (m ∷ ms) s = absurd s
  Steps-count x t (n ∷ ns) [] s = absurd s
  Steps-count x t (n ∷ ns) (m ∷ ms) (s, ss) = ground (arith, s.grow x t, Steps-count x t ns ms ss)

abbrev pub AreDistinct : List ℕ → Type 0
AreDistinct [] = Unit
AreDistinct (p ∷ ps) = (contains ps p ≡ false) × AreDistinct ps

-- A leader has a quorum of nodes that vote for it in its term or are past that term, and no term has
-- two leaders. The ids are different, and no term is beyond `k`.
pub record Inv (k : ℕ) (ns : List RaftMetaNode) : Type 0 where
  pub apart : AreDistinct (ids ns)
  pub terms : All (λ n. n.term ≤ k) ns
  pub backed :
      (n : RaftMetaNode)
      → Occurs n ns
      → is_leader n.role ≡ true
      → quorum_of ns ≤ count (is_bound n.id n.term) ns
  pub unique :
      (m n : RaftMetaNode)
      → Occurs m ns
      → Occurs n ns
      → is_leader m.role ≡ true
      → is_leader n.role ≡ true
      → m.term ≡ n.term
      → m.id ≡ n.id

abbrev pub Nobody : RaftMetaNode → Type 0
Nobody n = ⊥

old_leader :
    (k : ℕ) (n m : RaftMetaNode)
    → Step Nobody k n m
    → is_leader m.role ≡ true
    → (is_leader n.role ≡ true) × (m.term ≡ n.term)
old_leader k n m s h = elim (s.lead h) [ inl e ↦ e | inr e ↦ absurd e ]

-- Steps that make no leader keep that.
pub Inv-Steps : (k : ℕ) (ns ms : List RaftMetaNode) → Steps Nobody k ns ms → Inv k ns → Inv k ms
Inv-Steps k ns ms s inv = record {
  apart = rw (Steps-ids Nobody k ns ms s) inv.apart;
  terms = Steps-terms Nobody k ns ms s inv.terms;
  backed = λ m o h.
      let (n, at, t) = Steps-Occurs Nobody k ns ms m s o in
      let (l, e) = old_leader k n m t h in
      let b = inv.backed n at l in
      rw (t.same_id, e, Steps-length Nobody k ns ms s)
        (omega (arith, Steps-count Nobody k n.id n.term ns ms s));
  unique = λ a b oa ob la lb e.
      let (x, ox, sx) = Steps-Occurs Nobody k ns ms a s oa in
      let (y, oy, sy) = Steps-Occurs Nobody k ns ms b s ob in
      let (lx, ex) = old_leader k x a sx la in
      let (ly, ey) = old_leader k y b sy lb in
      sx.same_id ∙ inv.unique x y ox oy lx ly (sym ex ∙ e ∙ ey) ∙ sym sy.same_id;
}
