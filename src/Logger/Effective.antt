-- ===== src/Logger/Effective.antt =====
-- Where a logger's effective settings come from.
use mathlib.Core.Option.{some-injective}
use sim_logger.Prelude.{
  subst, ◌↔◌, ℕ, zero, suc, ◌<◌, Bool, true, false, List, [], ◌∷◌, Option, none, some, ◌≡◌, ◌⊎◌,
  inl, inr, refl, ◌∙◌, sym, arith, Bool-cases, Option-cases, length,
}
use sim_logger.Level.{Level}
use sim_logger.Sink.{SinkPtr}
use sim_logger.Logger.{
  Logger, Heap, fetch, lock, inherit, enough, effective_level, effective_sinks,
  effective_immediate_flush,
}

-- Every logger's parent stands in an earlier cell.
abbrev pub IsHierarchy : Heap → Type 0
IsHierarchy h = (i p : ℕ) (l : Logger) → fetch h i ≡ some l → l.parent_ptr ≡ some p → p < i

pub fetch-lt : (h : Heap) (i : ℕ) (l : Logger) → fetch h i ≡ some l → i < length h
unfolding fetch
fetch-lt [] i l e = cc
fetch-lt (c ∷ h) zero l e = omega arith
fetch-lt (c ∷ h) (suc i) l e = omega (arith, fetch-lt h i l e)

pub lock-some :
    (h : Heap) (o : Option ℕ) (p : Logger)
    → lock h o ≡ some p
    → (j : ℕ) × (o ≡ some j) × (fetch h j ≡ some p)
unfolding lock
lock-some h none p e = cc
lock-some h (some j) p e = (j, refl, e)

module _ {X : Type 0} (overrides : Logger → Bool) (own last : Logger → X) (h : Heap) where
  -- The value is that of the nearest logger that overrides it, looking upwards from `l`, or the last
  -- resort of the topmost logger.
  pub data Decides : Logger → X → Type 0 where
    overridden : {l : Logger} → overrides l ≡ true → Decides l (own l)
    topmost : {l : Logger} → overrides l ≡ false → lock h l.parent_ptr ≡ none → Decides l (last l)
    inherited :
        {l p : Logger} {x : X}
        → overrides l ≡ false
        → lock h l.parent_ptr ≡ some p
        → Decides p x
        → Decides l x

  climb :
      (ok : IsHierarchy h) (fuel i : ℕ) (l : Logger)
      → ((p : ℕ) → l.parent_ptr ≡ some p → p < i)
      → i < fuel
      → (x : X) × (inherit overrides own last fuel h l ≡ some x) × Decides l x
  unfolding inherit
  climb ok zero i l below room = absurd (omega arith)
  climb ok (suc fuel) i l below room = elim (Bool-cases (overrides l)) [
    | inl e ↦ (own l, rw (e, inherit), overridden e)
    | inr e ↦ elim (Option-cases (lock h l.parent_ptr)) [
      | inl top ↦ (last l, rw (e, inherit, top), topmost e top)
      | inr (p, up) ↦
          let (j, at, here) = lock-some h l.parent_ptr p up in
          let (x, ran, d) = climb ok fuel j p (λ k. ok j k p here) (omega (arith, below j at)) in
          (x, rw (e, inherit, up) ran, inherited e up d)
    ]
  ]

  -- With any fuel the code finds that value, if it finds one.
  Decides-inherit :
      {l : Logger} {x : X} (fuel : ℕ)
      → Decides l x
      → (inherit overrides own last fuel h l ≡ none)
        ⊎ (inherit overrides own last fuel h l ≡ some x)
  unfolding inherit
  Decides-inherit zero d = inl refl
  Decides-inherit (suc fuel) (overridden e) = inr (rw (e, inherit))
  Decides-inherit (suc fuel) (topmost e top) = inr (rw (e, inherit, top))
  Decides-inherit (suc fuel) (inherited e up d) = rw (e, inherit, up) (Decides-inherit fuel d)

  pub inherit_iff :
      (i : ℕ) (l : Logger) (x : X)
      → IsHierarchy h
      → fetch h i ≡ some l
      → (inherit overrides own last (enough h) h l ≡ some x) ↔ Decides l x
  inherit_iff i l x ok here =
      let (y, ran, d) =
        climb ok (enough h) i l (λ p. ok i p l here) (omega (arith, fetch-lt h i l here)) in
      (
        λ e. subst (Decides l) (some-injective y x (sym ran ∙ e)) d,
        λ d'. elim (Decides-inherit (enough h) d') [ inl e ↦ cc | inr e ↦ e ],
      )

  pub inherit_total :
      (i : ℕ) (l : Logger)
      → IsHierarchy h
      → fetch h i ≡ some l
      → (x : X) × (inherit overrides own last (enough h) h l ≡ some x) × Decides l x
  inherit_total i l ok here =
      climb ok (enough h) i l (λ p. ok i p l here) (omega (arith, fetch-lt h i l here))

-- The levels that decide for a logger: its own if it is overridden or at the top.
abbrev pub DecidesLevel : Heap → Logger → Level → Type 0
DecidesLevel = Decides (λ l. l.level_overridden) (λ l. l.level) (λ l. l.level)

abbrev pub DecidesSinks : Heap → Logger → List SinkPtr → Type 0
DecidesSinks = Decides (λ l. l.sinks_overridden) (λ l. l.sinks) (λ l. [])

abbrev pub DecidesFlush : Heap → Logger → Bool → Type 0
DecidesFlush =
    Decides (λ l. l.immediate_flush_overridden) (λ l. l.immediate_flush) (λ l. l.immediate_flush)

-- In a hierarchy the three effective settings of a logger are found, and each is that of the nearest
-- logger that overrides it, looking upwards from the logger itself; where none does, the level and
-- the flush setting are those of the topmost logger, and there are no sinks.
pub effective_settings :
    (h : Heap) (i : ℕ) (l : Logger)
    → IsHierarchy h
    → fetch h i ≡ some l
    → ((v : Level) × (effective_level h l ≡ some v) × DecidesLevel h l v)
      × ((ss : List SinkPtr) × (effective_sinks h l ≡ some ss) × DecidesSinks h l ss)
      × ((b : Bool) × (effective_immediate_flush h l ≡ some b) × DecidesFlush h l b)
unfolding effective_level effective_sinks effective_immediate_flush
effective_settings h i l ok here = (
  inherit_total _ _ _ h i l ok here,
  inherit_total _ _ _ h i l ok here,
  inherit_total _ _ _ h i l ok here,
)
