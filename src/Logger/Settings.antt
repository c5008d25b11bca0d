-- ===== src/Logger/Settings.antt =====
-- Which loggers a change of a logger's settings reaches.
use mathlib.Core.Option.{some-injective}
use sim_logger.Prelude.{
  subst, ℕ, Bool, true, false, List, [], Option, none, some, ◌≡◌, ◌≢◌, refl, ◌∙◌, sym, ap, arith,
  Option-cases, inl, inr,
}
use sim_logger.Level.{Level}
use sim_logger.Sink.{SinkPtr}
use sim_logger.Logger.{
  Logger, Heap, fetch, lock, modify, inherit, enough, effective_level, effective_sinks,
  effective_immediate_flush, set_level, clear_level_override, set_sinks, clear_sink_override,
  set_immediate_flush, clear_immediate_flush_override,
}
use sim_logger.Logger.Effective.{
  IsHierarchy, lock-some, Decides, overridden, topmost, inherited, inherit_iff, inherit_total,
}
use sim_logger.Logger.Change.{
  fetch-modify_ne, Asks, at_it, Asks-le, modify-IsHierarchy, lock-modify-none, Decides-modify_ne,
  Decides-modify-Asks,
}

-- One of the three settings: how it is read, set and cleared.
pub record Setting (X : Type 0) : Type 0 where
  pub overrides : Logger → Bool
  pub own : Logger → X
  pub last : Logger → X
  pub put : X → Logger → Logger
  pub clear : Logger → Logger
  pub put_on : (x : X) (l : Logger) → overrides (put x l) ≡ true
  pub put_own : (x : X) (l : Logger) → own (put x l) ≡ x
  pub put_parent : (x : X) (l : Logger) → (put x l).parent_ptr ≡ l.parent_ptr
  pub clear_off : (l : Logger) → overrides (clear l) ≡ false
  pub clear_parent : (l : Logger) → (clear l).parent_ptr ≡ l.parent_ptr

-- Where the lookup comes to cell `i`, the change of its logger gives the value; elsewhere nothing.
abbrev pub Spreads :
    {X : Type 0}
    → (Logger → Bool)
    → (Heap → Logger → Option X)
    → Heap
    → ℕ
    → (Logger → Logger)
    → Option X
    → Type 0
Spreads overrides effective h i f value =
    (j : ℕ) (l l' : Logger)
    → fetch h j ≡ some l
    → fetch (modify h i f) j ≡ some l'
    → (Asks overrides h i j → effective (modify h i f) l' ≡ value)
      × (¬ Asks overrides h i j → effective (modify h i f) l' ≡ effective h l)

-- What a logger has without a setting of its own: what its parent has, or a last resort.
abbrev pub fallback : {X : Type 0} → (Heap → Logger → Option X) → X → Heap → Logger → Option X
fallback effective last h l = elim (lock h l.parent_ptr) [
  | some p ↦ effective h p
  | none ↦ some last
]

module _ {X : Type 0} (s : Setting X) where
  abbrev pub effective : Heap → Logger → Option X
  effective h = inherit s.overrides s.own s.last (enough h) h

  module _ (h : Heap) (i : ℕ) (l0 : Logger) (ok : IsHierarchy h) (here : fetch h i ≡ some l0) where
    spreads :
        (f : Logger → Logger) (x : X)
        → (f l0).parent_ptr ≡ l0.parent_ptr
        → Decides s.overrides s.own s.last (modify h i f) (f l0) x
        → Spreads s.overrides effective h i f (some x)
    spreads f x same d j l l' was now =
        let tree = modify-IsHierarchy s.overrides s.own s.last h i l0 f ok here same in
        (
          λ a.
              (inherit_iff s.overrides s.own s.last (modify h i f) j l' x tree now).1
                (Decides-modify-Asks s.overrides s.own s.last h i l0 f ok here same j l' x now a d),
          λ quiet.
              let apart : i ≢ j = λ n. quiet (subst (λ k. Asks s.overrides h i k) n at_it) in
              let it : l ≡ l' =
                some-injective l l' (sym was ∙ sym (fetch-modify_ne h i j f apart) ∙ now) in
              let (y, ran, e) = inherit_total s.overrides s.own s.last h j l ok was in
              (inherit_iff s.overrides s.own s.last (modify h i f) j l' y tree now).1 (
                subst (λ k. Decides s.overrides s.own s.last (modify h i f) k y) it
                  (Decides-modify_ne s.overrides s.own s.last h i l0 f ok here same j l y was quiet
                    e))
              ∙ sym ran,
        )

    put-Spreads : (x : X) → Spreads s.overrides effective h i (s.put x) (some x)
    put-Spreads x = spreads (s.put x) x (s.put_parent x l0) (
        subst (Decides s.overrides s.own s.last (modify h i (s.put x)) (s.put x l0))
          (s.put_own x l0) (overridden (s.put_on x l0)))

    falls_back :
        (o : Option Logger)
        → lock h l0.parent_ptr ≡ o
        → fallback effective (s.last (s.clear l0)) h l0
          ≡ elim o [ some p ↦ effective h p | none ↦ some (s.last (s.clear l0)) ]
    falls_back o e =
        ap (λ o'. elim o' [ some p ↦ effective h p | none ↦ some (s.last (s.clear l0)) ]) e

    clear-Spreads :
        Spreads s.overrides effective h i s.clear (fallback effective (s.last (s.clear l0)) h l0)
    unfolding lock
    clear-Spreads j l l' was now = elim (Option-cases (lock h l0.parent_ptr)) [
      | inl top ↦
          let to_last =
            spreads s.clear (s.last (s.clear l0)) (s.clear_parent l0)
              (topmost (s.clear_off l0) (
                ap (lock (modify h i s.clear)) (s.clear_parent l0)
                ∙ lock-modify-none s.overrides s.own s.last h i l0 s.clear ok here
                    (s.clear_parent l0) l0.parent_ptr top))
              j l l' was now in
          (λ a. to_last.0 a ∙ sym (falls_back none top), to_last.1)
      | inr (p, up) ↦
          let (k, par, there) = lock-some h l0.parent_ptr p up in
          let (y, ran, d) = inherit_total s.overrides s.own s.last h k p ok there in
          let below = ok i k l0 here par in
          let to_parent =
            spreads s.clear y (s.clear_parent l0)
              (inherited (s.clear_off l0)
                (ap (lock (modify h i s.clear)) (s.clear_parent l0 ∙ par)
                  ∙ fetch-modify_ne h i k s.clear (λ n. absurd (omega (arith, below, n)))
                  ∙ there)
                (Decides-modify_ne s.overrides s.own s.last h i l0 s.clear ok here
                  (s.clear_parent l0) k p y there
                  (λ a. absurd (omega (arith, below, Asks-le s.overrides h i k ok a))) d))
              j l l' was now in
          (λ a. to_parent.0 a ∙ sym (falls_back (some p) up ∙ ran), to_parent.1)
    ]

unfoldable level_setting : Setting Level
unfolding set_level clear_level_override
level_setting = record {
  overrides = λ l. l.level_overridden;
  own = λ l. l.level;
  last = λ l. l.level;
  put = set_level;
  clear = clear_level_override;
  put_on = λ x l. refl;
  put_own = λ x l. refl;
  put_parent = λ x l. refl;
  clear_off = λ l. refl;
  clear_parent = λ l. refl;
}

unfoldable sinks_setting : Setting (List SinkPtr)
unfolding set_sinks clear_sink_override
sinks_setting = record {
  overrides = λ l. l.sinks_overridden;
  own = λ l. l.sinks;
  last = λ l. [];
  put = set_sinks;
  clear = clear_sink_override;
  put_on = λ x l. refl;
  put_own = λ x l. refl;
  put_parent = λ x l. refl;
  clear_off = λ l. refl;
  clear_parent = λ l. refl;
}

unfoldable flush_setting : Setting Bool
unfolding set_immediate_flush clear_immediate_flush_override
flush_setting = record {
  overrides = λ l. l.immediate_flush_overridden;
  own = λ l. l.immediate_flush;
  last = λ l. l.immediate_flush;
  put = set_immediate_flush;
  clear = clear_immediate_flush_override;
  put_on = λ x l. refl;
  put_own = λ x l. refl;
  put_parent = λ x l. refl;
  clear_off = λ l. refl;
  clear_parent = λ l. refl;
}

-- In a hierarchy, let a logger's level, sinks or flush setting be set. Then each logger whose lookup of
-- that setting comes to it, as the lookup starts there or climbs there through parents over loggers
-- that do not override the setting, has the new value as its effective one; every other logger has
-- the effective value that it had.
pub set-Spreads :
    (h : Heap) (i : ℕ) (l0 : Logger) (v : Level) (ss : List SinkPtr) (b : Bool)
    → IsHierarchy h
    → fetch h i ≡ some l0
    → Spreads (λ l. l.level_overridden) effective_level h i (set_level v) (some v)
      × Spreads (λ l. l.sinks_overridden) effective_sinks h i (set_sinks ss) (some ss)
      × Spreads
          (λ l. l.immediate_flush_overridden)
          effective_immediate_flush
          h
          i
          (set_immediate_flush b)
          (some b)
unfolding effective_level effective_sinks effective_immediate_flush level_setting sinks_setting
    flush_setting
set-Spreads h i l0 v ss b ok here = (
  put-Spreads level_setting h i l0 ok here v,
  put-Spreads sinks_setting h i l0 ok here ss,
  put-Spreads flush_setting h i l0 ok here b,
)

-- In a hierarchy, let a logger's override of its level, sinks or flush setting be cleared. Then each
-- logger whose lookup of that setting comes to it has the effective value that its parent had; where
-- the logger has no live parent, they have the level or the flush setting that the logger held
-- before, the override just cleared if there was one and not a default, or no sinks. Every other logger has the effective value that it had.
pub clear_override-Spreads :
    (h : Heap) (i : ℕ) (l0 : Logger)
    → IsHierarchy h
    → fetch h i ≡ some l0
    → Spreads
        (λ l. l.level_overridden)
        effective_level
        h
        i
        clear_level_override
        (fallback effective_level l0.level h l0)
      × Spreads
          (λ l. l.sinks_overridden)
          effective_sinks
          h
          i
          clear_sink_override
          (fallback effective_sinks [] h l0)
      × Spreads
          (λ l. l.immediate_flush_overridden)
          effective_immediate_flush
          h
          i
          clear_immediate_flush_override
          (fallback effective_immediate_flush l0.immediate_flush h l0)
unfolding effective_level effective_sinks effective_immediate_flush level_setting sinks_setting
    flush_setting clear_level_override clear_immediate_flush_override
clear_override-Spreads h i l0 ok here = (
  clear-Spreads level_setting h i l0 ok here,
  clear-Spreads sinks_setting h i l0 ok here,
  clear-Spreads flush_setting h i l0 ok here,
)
