-- ===== src/Time/Snapshots.antt =====
-- A thread's reference to a time source stays valid while others install theirs.
use sim_logger.Prelude.{
  ℕ, List, [], ◌∷◌, Option, none, some, ◌≡◌, ◌≢◌, ◌≤◌, ◌⊎◌, inl, inr, refl, ◌∙◌, arith,
}
use sim_logger.Time.{GlobalTime, set_global_time_source, global_time_source, global_time_source_ref}

-- Calls that the threads make.
pub data TimeCall : Type 0 where
  installs : Option ℕ → TimeCall
  refers : ℕ → TimeCall

abbrev pub after : GlobalTime → List TimeCall → GlobalTime
after t [] = t
after t (installs p ∷ cs) = after (set_global_time_source p t) cs
after t (refers i ∷ cs) = after (global_time_source_ref i t).1 cs

-- None of the calls is a reference taken by this thread.
abbrev pub IsSilent : ℕ → List TimeCall → Type 0
IsSilent i [] = 0 ≤ 0
IsSilent i (installs p ∷ cs) = IsSilent i cs
IsSilent i (refers j ∷ cs) = (j ≢ i) × IsSilent i cs

keeps :
    (i : ℕ) (t : GlobalTime) (cs : List TimeCall)
    → IsSilent i cs
    → (after t cs).snapshots i ≡ t.snapshots i
unfolding set_global_time_source global_time_source_ref
keeps i t [] quiet = refl
keeps i t (installs p ∷ cs) quiet = keeps i (set_global_time_source p t) cs quiet
keeps i t (refers j ∷ cs) (other, quiet) =
    keeps i (global_time_source_ref j t).1 cs quiet ∙ ground (arith, other)

-- The source that a thread refers to is the one installed last, or the fallback where none is or the
-- last was null; and until the thread takes a reference again, whatever sources are installed and
-- whatever other threads refer to, its snapshot owns that source.
pub reference_stays_owned :
    (i : ℕ) (p : Option ℕ) (t : GlobalTime) (cs : List TimeCall)
    → IsSilent i cs
    → let (source, t') = global_time_source_ref i (set_global_time_source p t) in
      ((p ≡ some source) ⊎ ((p ≡ none) × (source ≡ t.fallback)))
      × ((after t' cs).snapshots i ≡ some source)
unfolding global_time_source_ref global_time_source set_global_time_source
reference_stays_owned i none t cs quiet = (
  inr (refl, refl),
  keeps i (global_time_source_ref i (set_global_time_source none t)).1 cs quiet ∙ ground arith,
)
reference_stays_owned i (some q) t cs quiet = (
  inl refl,
  keeps i (global_time_source_ref i (set_global_time_source (some q) t)).1 cs quiet ∙ ground arith,
)
