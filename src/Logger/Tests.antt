-- ===== src/Logger/Tests.antt =====
-- The loggers' theorems at a root logger and its child.
use mathlib.Core.Option.{some-injective}
use sim_logger.Prelude.{
  ℕ, ◌==◌, zero, suc, Bool, true, false, List, [], ◌∷◌, some, ◌≡◌, refl, ap, ◌∙◌, arith, codes,
}
use sim_logger.Level.{Level, warn, is_at_least}
use sim_logger.Sink.{SinkPtr}
use sim_logger.Logger.{
  Logger, Heap, new_logger, set_level, add_sink, set_parent, fetch, lock, modify, effective_level,
  set_sinks, set_immediate_flush, clear_level_override, clear_sink_override,
  clear_immediate_flush_override, effective_sinks, effective_immediate_flush, log,
}
use sim_logger.Logger.Effective.{
  IsHierarchy, DecidesLevel, DecidesSinks, DecidesFlush, overridden, inherited, topmost,
  effective_settings,
}
use sim_logger.Logger.Settings.{Spreads, fallback, set-Spreads, clear_override-Spreads}
use sim_logger.Logger.Emit.{SinkEvent, written, flushed, recording, Emitted, log_emits}

abbrev root : Logger
root = add_sink 4 (add_sink 3 (new_logger (codes "root")))

abbrev child : Logger
child = set_level warn (set_parent (some 0) (new_logger (codes "a")))

abbrev two : Heap
two = some root ∷ some child ∷ []

two-IsHierarchy : IsHierarchy two
unfolding fetch set_level set_parent add_sink new_logger
two-IsHierarchy zero p l e up = cc
two-IsHierarchy (suc zero) p l e up =
    omega (arith, some-injective 0 p (ap (λ k. k.parent_ptr) (some-injective child l e) ∙ up))
two-IsHierarchy (suc (suc i)) p l e up = cc

child_here : fetch two 1 ≡ some child
unfolding fetch
child_here = refl

effective_settings_example :
    ((v : Level) × (effective_level two child ≡ some v) × DecidesLevel two child v)
    × ((ss : List SinkPtr) × (effective_sinks two child ≡ some ss) × DecidesSinks two child ss)
    × ((b : Bool) × (effective_immediate_flush two child ≡ some b) × DecidesFlush two child b)
effective_settings_example = effective_settings two 1 child two-IsHierarchy child_here

-- Sink 3 throws at every write.
abbrev sink_throws : List (SinkEvent ℕ) → SinkEvent ℕ → Bool
sink_throws cs (written s r) = s == 3
sink_throws cs (flushed s) = false

child_level : DecidesLevel two child warn
unfolding set_level set_parent new_logger
child_level = overridden refl

child_sinks : DecidesSinks two child (3 ∷ 4 ∷ [])
unfolding set_level set_parent add_sink new_logger lock fetch
child_sinks = inherited refl refl (overridden refl)

child_flush : DecidesFlush two child false
unfolding set_level set_parent add_sink new_logger lock fetch
child_flush = inherited refl refl (topmost refl refl)

log_emits_example :
    (is_at_least warn warn ≡ false
      → log (recording sink_throws) two 1 child warn 9 [] ≡ some (two, []))
    × (is_at_least warn warn ≡ true
        → (out : List (SinkEvent ℕ) × ℕ) × (log (recording sink_throws) two 1 child warn 9 []
            ≡ some (modify two 1 (λ l. record l { sink_failures_count = out.1 }), out.0))
          × Emitted sink_throws false 9 (3 ∷ 4 ∷ []) [] child.sink_failures_count out)
unfolding new_logger set_level set_parent
log_emits_example =
    log_emits sink_throws two 1 child warn (3 ∷ 4 ∷ []) false warn 9 [] two-IsHierarchy child_here
      child_level child_sinks child_flush (omega arith)

root_here : fetch two 0 ≡ some root
unfolding fetch
root_here = refl

-- The root's settings reach the child but for the level, which the child overrides.
set-Spreads_example :
    Spreads (λ l. l.level_overridden) effective_level two 0 (set_level warn) (some warn)
    × Spreads (λ l. l.sinks_overridden) effective_sinks two 0 (set_sinks []) (some [])
    × Spreads
        (λ l. l.immediate_flush_overridden)
        effective_immediate_flush
        two
        0
        (set_immediate_flush true)
        (some true)
set-Spreads_example = set-Spreads two 0 root warn [] true two-IsHierarchy root_here

clear_override-Spreads_example :
    Spreads
      (λ l. l.level_overridden)
      effective_level
      two
      1
      clear_level_override
      (fallback effective_level child.level two child)
    × Spreads
        (λ l. l.sinks_overridden)
        effective_sinks
        two
        1
        clear_sink_override
        (fallback effective_sinks [] two child)
    × Spreads
        (λ l. l.immediate_flush_overridden)
        effective_immediate_flush
        two
        1
        clear_immediate_flush_override
        (fallback effective_immediate_flush child.immediate_flush two child)
clear_override-Spreads_example = clear_override-Spreads two 1 child two-IsHierarchy child_here
