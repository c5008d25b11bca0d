-- ===== src/Prune/Reads.antt =====
-- Which rotated files the pruning finds in a directory.
use sim_logger.Prelude.{ℕ, List, [], ◌∷◌, none, ◌≡◌, inl, inr, Option-cases, Bytes}
use sim_logger.Rotation.{parse_rotation_suffix}
use sim_logger.Rotation.Form.{IsRotated, parse_rotation_suffix_iff}
use sim_logger.Prune.{Candidate, candidates}

-- The name is not that of a rotated file.
abbrev pub IsOther : Bytes → Bytes → Type 0
IsOther base n = (ts : Bytes) (seq : ℕ) → ¬ (IsRotated base n ts seq)

-- The rotated files among these names, in their order, each with the timestamp and the number that
-- its name is made of.
pub data Reads (base : Bytes) : List Bytes → List Candidate → Type 0 where
  end : Reads base [] []
  rotated :
      {c : Candidate} {ns : List Bytes} {cs : List Candidate}
      → IsRotated base c.path c.ts c.seq
      → Reads base ns cs
      → Reads base (c.path ∷ ns) (c ∷ cs)
  other :
      {n : Bytes} {ns : List Bytes} {cs : List Candidate}
      → IsOther base n
      → Reads base ns cs
      → Reads base (n ∷ ns) cs

IsOther-none : (base n : Bytes) → parse_rotation_suffix n base ≡ none → IsOther base n
IsOther-none base n e ts seq r = cc ((parse_rotation_suffix_iff n base ts seq).1 r, e)

pub none-IsOther : (base n : Bytes) → IsOther base n → parse_rotation_suffix n base ≡ none
none-IsOther base n o = elim (Option-cases (parse_rotation_suffix n base)) [
  | inl e ↦ e
  | inr ((ts, seq), e) ↦ absurd (o ts seq ((parse_rotation_suffix_iff n base ts seq).0 e))
]

pub candidates-Reads :
    (base : Bytes) (names : List Bytes) → Reads base names (candidates base names)
unfolding candidates
candidates-Reads base [] = end
candidates-Reads base (n ∷ names) = elim (Option-cases (parse_rotation_suffix n base)) [
  | inl e ↦ rw (e, candidates) (other (IsOther-none base n e) (candidates-Reads base names))
  | inr ((ts, seq), e) ↦
      rw (e, candidates)
        (rotated {c = record { path = n; ts = ts; seq = seq }}
          ((parse_rotation_suffix_iff n base ts seq).0 e) (candidates-Reads base names))
]
