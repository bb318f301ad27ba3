-- ===== src/Saga/Undo.antt =====
-- What the compensation of src/saga.rs undoes, and the sets of names it goes by.
use Prim.Native.String.{String}
use text.Mathlib.Text.{◌==◌}
use text.Mathlib.TextEquality.{eq_iff}
use text.Mathlib.TextPositions.{eq_refl}
use shanshui_cunji.Prelude.{
  ◌≡◌, ◌≢◌, ◌⊎◌, inl, inr, refl, ap, ◌∙◌, false, ◌||◌, none, some, List, [], ◌∷◌, ◌++◌, map, All,
  All-map, arith,
}
use shanshui_cunji.Prelude.Texts.{has_text}
use shanshui_cunji.Errors.{Error, Result, ok, err, panic}
use shanshui_cunji.Saga.{
  SagaStatus, compensated, SagaState, SagaStep, SagaCoordinator, persist, find_step, on_compensated,
  compensate_round, compensate_loop, text_insert,
}

pub Result-cases : (r : Result (Unit {0})) → (r ≡ ok tt) ⊎ ((e : Error) × (r ≡ err e)) ⊎ (r ≡ panic)
Result-cases (ok u) = inl refl
Result-cases (err e) = inr (inl (e, refl))
Result-cases panic = inr (inr refl)

pub has_text-insert :
    (x name : String) (ts : List String)
    → (name == x) ≡ false
    → has_text x ts ≡ false
    → has_text x (text_insert name ts) ≡ false
unfolding has_text
has_text-insert x name ts h k = ground arith

pub has_text-append :
    (x : String) (ts us : List String) → has_text x (ts ++ us) ≡ (has_text x ts || has_text x us)
unfolding has_text
has_text-append x [] us = refl
has_text-append x (t ∷ ts) us = ground (arith, has_text-append x ts us)

pub has_text-snoc :
    (x name : String) (ts us : List String)
    → has_text x ts ≡ has_text x us
    → has_text x (ts ++ (name ∷ [])) ≡ has_text x (name ∷ us)
unfolding has_text
has_text-snoc x name ts us h = ground (arith, has_text-append x ts (name ∷ []))

pub has_text-next :
    (x name : String) (ts : List String)
    → (name == x) ≡ false
    → has_text x ts ≡ false
    → has_text x (name ∷ ts) ≡ false
unfolding has_text
has_text-next x name ts e h = rw (e, h)

pub has_text_no_text : (x : String) (ts : List String) → ts ≡ [] → has_text x ts ≡ false
unfolding has_text
has_text_no_text x ts e = rw e

module _ {B : Type 0} where
  -- The compensation undoes a forward call that succeeded, and one that failed has done nothing.
  pub record IsReversible (s : SagaStep B) : Type 0 where
    pub undo : (b : B) → (s.forward b).0 ≡ ok tt → s.compensate (s.forward b).1 ≡ (ok tt, b)
    pub no_trace : (b : B) (e : Error) → (s.forward b).0 ≡ err e → (s.forward b).1 ≡ b
    pub no_panic : (b : B) → (s.forward b).0 ≢ panic

  abbrev pub names : List (SagaStep B) → List String
  names steps = map (λ s. s.name) steps

  -- No name occurs twice.
  abbrev pub HaveNewNames : List (SagaStep B) → Type 0
  HaveNewNames [] = Unit
  HaveNewNames (s ∷ ss) = (has_text s.name (names ss) ≡ false) × HaveNewNames ss

  -- Every step in its turn returns `ok`, and the last one leaves `final`.
  abbrev pub AllDone : List (SagaStep B) → B → B → Type 0
  AllDone [] b final = b ≡ final
  AllDone (s ∷ ss) b final = ((s.forward b).0 ≡ ok tt) × AllDone ss (s.forward b).1 final

  -- Some step returns an error, after steps that return `ok`.
  abbrev pub SomeFails : List (SagaStep B) → B → Type 0
  SomeFails [] b = ⊥
  SomeFails (s ∷ ss) b =
      ((e : Error) × ((s.forward b).0 ≡ err e))
      ⊎ (((s.forward b).0 ≡ ok tt) × SomeFails ss (s.forward b).1)

  abbrev pub IsKnown : List (SagaStep B) → SagaStep B → Type 0
  IsKnown all s = find_step s.name all ≡ some s

  pub find_step-none :
      (name : String) (steps : List (SagaStep B))
      → has_text name (names steps) ≡ false
      → find_step name steps ≡ none
  unfolding find_step has_text
  find_step-none name [] h = refl
  find_step-none name (s ∷ ss) h = ground (arith, find_step-none name ss)

  pub IsKnown-cons : (s t : SagaStep B) (ss : List (SagaStep B)) → IsKnown ss t → IsKnown (s ∷ ss) t
  unfolding find_step
  IsKnown-cons s t ss h = rw h

  pub All-IsKnown : (steps : List (SagaStep B)) → HaveNewNames steps → All (IsKnown steps) steps
  unfolding find_step
  All-IsKnown [] h = tt
  All-IsKnown (s ∷ ss) (h, hs) = (
    rw (find_step-none s.name ss h, eq_refl),
    All-map ss (λ t k. IsKnown-cons s t ss k) (All-IsKnown ss hs),
  )

  -- Compensating the stack of steps, the first one first, leads from `b` to `start`.
  abbrev pub UndoPath : List (SagaStep B) → B → B → Type 0
  UndoPath [] b start = b ≡ start
  UndoPath (s ∷ ss) b start = (b' : B) × (s.compensate b ≡ (ok tt, b')) × UndoPath ss b' start

  abbrev pub Undone : B → Result SagaStatus × SagaCoordinator B → Type 0
  Undone start r = (r.0 ≡ ok compensated) × (r.1.world ≡ start)

  pub names_apart :
      (name : String) (ss : List (SagaStep B))
      → has_text name (names ss) ≡ false
      → All (λ (t : SagaStep B). (name == t.name) ≡ false) ss
  unfolding has_text
  names_apart name [] h = tt
  names_apart name (s ∷ ss) h =
      (ground (arith, eq_iff name s.name, eq_iff s.name name), names_apart name ss (ground arith))

  pub All-both :
      {P Q R : SagaStep B → Type 0} (ss : List (SagaStep B))
      → ((s : SagaStep B) → P s → Q s → R s)
      → All P ss
      → All Q ss
      → All R ss
  All-both [] f p q = tt
  All-both (s ∷ ss) f (p, ps) (q, qs) = (f s p q, All-both ss f ps qs)

  pub compensate_loop_round :
      (all : List (SagaStep B)) (s : SagaStep B) (ns : List String) (st : SagaState)
      (c : SagaCoordinator B) (b' : B)
      → has_text s.name st.compensated_steps ≡ false
      → IsKnown all s
      → s.compensate c.world ≡ (ok tt, b')
      → compensate_loop all (s.name ∷ ns) st c
        ≡ on_compensated (compensate_loop all ns) s.name st c (ok tt, b')
  unfolding compensate_loop
  compensate_loop_round all s ns st c b' f k e =
      let rest = compensate_loop all ns in
      ap (λ x. compensate_round x (find_step s.name all) rest s.name st c) f
      ∙ ap (λ y. compensate_round false y rest s.name st c) k
      ∙ ap (λ r. on_compensated rest s.name st c r) e

  pub compensate_loop-Undone :
      (all ss : List (SagaStep B)) (st : SagaState) (c : SagaCoordinator B) (start : B)
      → c.writes ≡ []
      → UndoPath ss c.world start
      → All (IsKnown all) ss
      → All (λ (s : SagaStep B). has_text s.name st.compensated_steps ≡ false) ss
      → HaveNewNames ss
      → Undone start (compensate_loop all (names ss) st c)
  unfolding compensate_loop persist
  compensate_loop-Undone all [] st c start w path known fresh new = rw w (refl, path)
  compensate_loop-Undone all (s ∷ ss) st c start w (b', e, path) (k, ks) (f, fs) (n, ns) =
      rw (compensate_loop_round all s (names ss) st c b' f k e, w)
        (compensate_loop-Undone all ss _ _ start refl path ks
          (All-both ss (λ t p q. has_text-insert t.name s.name st.compensated_steps p q)
            (names_apart s.name ss n) fs)
          ns)
