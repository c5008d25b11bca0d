-- ===== src/Time/Tests.antt =====
-- Two threads and two sources.
use sim_logger.Prelude.{◌+◌, ℕ, Option, ◌⊎◌, [], ◌∷◌, some, none, pos, negsuc, ◌≡◌, refl, arith}
use sim_logger.Time.{
  advance, dummy_time_source, default_dummy_time_source, GlobalTime, add_i64,
  global_time_source_ref, set_global_time_source,
}
use sim_logger.Time.Snapshots.{installs, refers, after, reference_stays_owned}

abbrev start : GlobalTime
start = record { installed = none; fallback = 0; snapshots = λ i. none }

backwards : add_i64 (pos 3) (negsuc 4) ≡ negsuc 1
unfolding add_i64
backwards = refl

abbrev chosen : Option ℕ
chosen = some 7

-- A new dummy source, advanced.
advanced :
    advance (λ x y. x + y) 2 3 (negsuc 0) (default_dummy_time_source 0)
    ≡ record { sim_time = 2; mission_elapsed = 3; wall_time_ns = negsuc 0 }
unfolding advance default_dummy_time_source dummy_time_source add_i64
advanced = refl

-- While source 7 is referred to by thread 0, source 8 replaces it and thread 1 refers to that.
reference_stays_owned_example :
    let (source, t) = global_time_source_ref 0 (set_global_time_source chosen start) in
    ((chosen ≡ some source) ⊎ ((chosen ≡ none) × (source ≡ start.fallback)))
    × ((after t (installs (some 8) ∷ refers 1 ∷ [])).snapshots 0 ≡ some source)
reference_stays_owned_example =
    reference_stays_owned 0 chosen start (installs (some 8) ∷ refers 1 ∷ [])
      ((λ e. omega (arith, e)), omega arith)
