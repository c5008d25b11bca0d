-- ===== src/Logger/Change.antt =====
-- What a change of one logger of a hierarchy leaves of the lookups of its settings.
use mathlib.Core.Option.{some-injective}
use sim_logger.Prelude.{
  subst, ℕ, ◌≤◌, ◌<◌, Bool, false, Option, none, some, ◌≡◌, ◌≢◌, refl, ◌∙◌, sym, ap, arith, ◌==◌,
  ==_iff, ◌⊎◌, Option-cases, Bool-cases, inl, inr, set, get_elem?-set_self, get_elem?-set_ne,
}
use sim_logger.Logger.{Logger, Heap, fetch, lock, modify}
use sim_logger.Logger.Effective.{
  IsHierarchy, fetch-lt, lock-some, Decides, overridden, topmost, inherited,
}

set_cell :
    (h : Heap) (i : ℕ) (l l' : Logger) → fetch h i ≡ some l → fetch (set h i (some l')) i ≡ some l'
unfolding fetch
set_cell h i l l' e =
    ap (λ o. elim o [ some (some k) ↦ some k | _ ↦ none ])
      (get_elem?-set_self h i (some l') (fetch-lt h i l e))

set_other : (h : Heap) (i j : ℕ) (c : Option Logger) → i ≢ j → fetch (set h i c) j ≡ fetch h j
unfolding fetch
set_other h i j c n =
    ap (λ o. elim o [ some (some k) ↦ some k | _ ↦ none ]) (get_elem?-set_ne h i j c n)

same_or_other : (i j : ℕ) → (i ≡ j) ⊎ (i ≢ j)
same_or_other i j = elim (Bool-cases (i == j)) [
  | inl e ↦ inl ((==_iff i j).0 e)
  | inr e ↦ inr (λ z. cc ((==_iff i j).1 z))
]

pub fetch-modify_self :
    (h : Heap) (i : ℕ) (l : Logger) (f : Logger → Logger)
    → fetch h i ≡ some l
    → fetch (modify h i f) i ≡ some (f l)
unfolding modify
fetch-modify_self h i l f e = rw (e, modify) (set_cell h i l (f l) e)

pub fetch-modify_ne :
    (h : Heap) (i j : ℕ) (f : Logger → Logger) → i ≢ j → fetch (modify h i f) j ≡ fetch h j
unfolding modify
fetch-modify_ne h i j f n = elim (Option-cases (fetch h i)) [
  | inl e ↦ rw (e, modify)
  | inr (l, e) ↦ rw (e, modify) (set_other h i j (some (f l)) n)
]

-- The lookup of a setting that starts in the last cell comes to cell `i`.
pub data Asks (overrides : Logger → Bool) (h : Heap) (i : ℕ) : ℕ → Type 0 where
  at_it : Asks overrides h i i
  asks_parent :
      {j p : ℕ} {l q : Logger}
      → fetch h j ≡ some l
      → overrides l ≡ false
      → l.parent_ptr ≡ some p
      → fetch h p ≡ some q
      → Asks overrides h i p
      → Asks overrides h i j

pub Asks-le :
    (overrides : Logger → Bool) (h : Heap) (i j : ℕ) → IsHierarchy h → Asks overrides h i j → i ≤ j
Asks-le overrides h i j ok at_it = omega arith
Asks-le overrides h i j ok (asks_parent {p = p} {l = l} here quiet up there a) =
    omega (arith, ok j p l here up, Asks-le overrides h i p ok a)

module _ {X : Type 0} (overrides : Logger → Bool) (own last : Logger → X) (h : Heap) (i : ℕ)
    (l0 : Logger) (f : Logger → Logger) (ok : IsHierarchy h) (here : fetch h i ≡ some l0)
    (same_parent : (f l0).parent_ptr ≡ l0.parent_ptr) where
  pub modify-IsHierarchy : IsHierarchy (modify h i f)
  modify-IsHierarchy j p l e up = elim (same_or_other i j) [
    | inr n ↦ ok j p l (sym (fetch-modify_ne h i j f n) ∙ e) up
    | inl n ↦
        let it : f l0 ≡ l =
          some-injective (f l0) l
            (sym (fetch-modify_self h i l0 f here) ∙ ap (fetch (modify h i f)) n ∙ e) in
        subst (λ k. p < k) n (ok i p l0 here (sym same_parent ∙ ap (λ k. k.parent_ptr) it ∙ up))
  ]

  -- A cell whose lookup does not come to cell `i` gets what it got.
  pub lock-modify-none : (o : Option ℕ) → lock h o ≡ none → lock (modify h i f) o ≡ none
  unfolding lock
  lock-modify-none none e = refl
  lock-modify-none (some p) e = elim (same_or_other i p) [
    | inl n ↦ cc (ap (fetch h) n)
    | inr n ↦ fetch-modify_ne h i p f n ∙ e
  ]

  pub Decides-modify_ne :
      (j : ℕ) (l : Logger) (x : X)
      → fetch h j ≡ some l
      → ¬ Asks overrides h i j
      → Decides overrides own last h l x
      → Decides overrides own last (modify h i f) l x
  unfolding lock
  Decides-modify_ne j l x at quiet (overridden e) = overridden e
  Decides-modify_ne j l x at quiet (topmost e top) = topmost e (lock-modify-none l.parent_ptr top)
  Decides-modify_ne j l x at quiet (inherited {p = p} e up d) =
      let (k, par, there) = lock-some h l.parent_ptr p up in
      let quiet_up : ¬ Asks overrides h i k = λ a. quiet (asks_parent at e par there a) in
      let apart : i ≢ k = λ n. quiet_up (subst (λ m. Asks overrides h i m) n at_it) in
      inherited e (ap (lock (modify h i f)) par ∙ fetch-modify_ne h i k f apart ∙ there)
        (Decides-modify_ne k p x there quiet_up d)

  still_there :
      (p : ℕ) (q : Logger) → fetch h p ≡ some q → (q' : Logger) × (fetch (modify h i f) p ≡ some q')
  still_there p q there = elim (same_or_other i p) [
    | inl n ↦ (f l0, ap (fetch (modify h i f)) (sym n) ∙ fetch-modify_self h i l0 f here)
    | inr n ↦ (q, fetch-modify_ne h i p f n ∙ there)
  ]

  -- A cell whose lookup comes to cell `i` gets what the changed logger gets.
  pub Decides-modify-Asks :
      (j : ℕ) (l : Logger) (x : X)
      → fetch (modify h i f) j ≡ some l
      → Asks overrides h i j
      → Decides overrides own last (modify h i f) (f l0) x
      → Decides overrides own last (modify h i f) l x
  unfolding lock
  Decides-modify-Asks j l x at at_it d =
      subst (λ k. Decides overrides own last (modify h i f) k x)
        (some-injective (f l0) l (sym (fetch-modify_self h i l0 f here) ∙ at)) d
  Decides-modify-Asks j l x at (asks_parent {p = p} {l = k} {q = q} was quiet par there a) d =
      let apart : i ≢ j =
        λ n. absurd (omega (arith, ok j p k was par, Asks-le overrides h i p ok a, n)) in
      let it : k ≡ l = some-injective k l (sym was ∙ sym (fetch-modify_ne h i j f apart) ∙ at) in
      let up : (q' : Logger) × (fetch (modify h i f) p ≡ some q') = still_there p q there in
      inherited (ap overrides (sym it) ∙ quiet)
        (ap (λ m. lock (modify h i f) m.parent_ptr) (sym it) ∙ ap (lock (modify h i f)) par ∙ up.1)
        (Decides-modify-Asks p up.0 x up.1 a d)
