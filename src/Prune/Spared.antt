-- ===== src/Prune/Spared.antt =====
-- Pruning spares every file that is no rotated file, the base file among them.
use sim_logger.Prelude.{
  ◌≤◌, false, ◌⊎◌, ℕ, zero, suc, ◌==◌, ◌-◌, Bool, List, [], ◌∷◌, ◌++◌, none, some, ◌≡◌, ◌≢◌, refl,
  sym, ap, subst, ◌∙◌, arith, inl, inr, Bool-cases, Option-cases, leb, length, take, Bytes,
}
use sim_logger.Rotation.{strip_prefix, parse_rotation_suffix}
use sim_logger.Disk.{Disk, get}
use sim_logger.Prune.{Candidate, before, insert, sort, candidates, victims, prune}
use sim_logger.Prune.Limited.{names, candidates-skip, candidates-keep, prune-limited}
use sim_logger.Prune.Reads.{IsOther, Reads, none-IsOther, candidates-Reads}
use sim_logger.Prune.Newest.{IsPath, first, later, seen, prune_keeps_newest}

-- A name is shorter than itself with more behind it.
strip_prefix_longer : (s : Bytes) (c : ℕ) (t : Bytes) → strip_prefix (s ++ (c ∷ t)) s ≡ none
unfolding strip_prefix
strip_prefix_longer [] c t = refl
strip_prefix_longer (x ∷ s) c t = elim (Bool-cases (x == x)) [
  | inl e ↦ rw e (strip_prefix_longer s c t)
  | inr e ↦ rw e
]

base_unrotated : (base : Bytes) → parse_rotation_suffix base base ≡ none
unfolding parse_rotation_suffix
base_unrotated base = rw (strip_prefix_longer base 46 [], parse_rotation_suffix)

behind :
    {n : Bytes} (c b : Candidate) (s : List Candidate)
    → (IsPath n (insert c s) → IsPath n (c ∷ s))
    → IsPath n (b ∷ insert c s)
    → IsPath n (c ∷ b ∷ s)
behind c b s f (first e) = later (first e)
behind c b s f (later p) = elim (f p) [ first e ↦ first e | later q ↦ later (later q) ]

IsPath-insert :
    {n : Bytes} (c : Candidate) (s : List Candidate) → IsPath n (insert c s) → IsPath n (c ∷ s)
unfolding insert
IsPath-insert c [] p = p
IsPath-insert c (b ∷ s) p = elim (Bool-cases (before c b)) [
  | inl e ↦ rw e at p
  | inr e ↦ behind c b s (IsPath-insert c s) (rw e at p)
]

IsPath-sort : {n : Bytes} (s : List Candidate) → IsPath n (sort s) → IsPath n s
unfolding sort
IsPath-sort [] p = p
IsPath-sort (c ∷ s) p = elim (IsPath-insert c (sort s) p) [
  | first e ↦ first e
  | later q ↦ later (IsPath-sort s q)
]

IsPath-take : {n : Bytes} (k : ℕ) (s : List Candidate) → IsPath n (take k s) → IsPath n s
IsPath-take zero s p = elim p [ ]
IsPath-take (suc k) [] p = elim p [ ]
IsPath-take (suc k) (c ∷ s) (first e) = first e
IsPath-take (suc k) (c ∷ s) (later p) = later (IsPath-take k s p)

none-some : (x : Bytes × ℕ) → none ≢ some x
none-some x e = cc

of_either :
    {n : Bytes} (c : Candidate) (cs : List Candidate) (base : Bytes) (x : Bytes × ℕ)
    → parse_rotation_suffix c.path base ≡ some x
    → (IsPath n cs → parse_rotation_suffix n base ≢ none)
    → IsPath n (c ∷ cs)
    → parse_rotation_suffix n base ≢ none
of_either c cs base x e f (first same) =
    λ z. absurd (none-some x (sym z ∙ ap (λ m. parse_rotation_suffix m base) (sym same) ∙ e))
of_either c cs base x e f (later p) = f p

IsPath-candidates :
    {n : Bytes} (base : Bytes) (names : List Bytes)
    → IsPath n (candidates base names)
    → parse_rotation_suffix n base ≢ none
unfolding candidates
IsPath-candidates base [] p = elim p [ ]
IsPath-candidates {n = n} base (m ∷ names) p = elim (Option-cases (parse_rotation_suffix m base)) [
  | inl e ↦
      IsPath-candidates base names (subst (λ cs. IsPath n cs) (candidates-skip base m names e) p)
  | inr ((ts, seq), e) ↦
      of_either (record { path = m; ts = ts; seq = seq }) (candidates base names) base (ts, seq) e
        (IsPath-candidates base names)
        (subst (λ cs. IsPath n cs) (candidates-keep base m names ts seq e) p)
]

IsPath-victims :
    {n : Bytes} (k : ℕ) (base : Bytes) (names : List Bytes)
    → IsPath n (victims k base names)
    → IsPath n (candidates base names)
unfolding victims
IsPath-victims {n = n} k base names p = elim (Bool-cases (leb (length (candidates base names)) k)) [
  | inl e ↦ elim (rw e at p) [ ]
  | inr e ↦
      IsPath-sort (candidates base names) (
        IsPath-take (length (candidates base names) - k) (sort (candidates base names)) (rw e at p))
]

module _ (fails : ℕ → Bool) (short : ℕ → ℕ) where
  -- A file is as it was, or it is a rotated file and gone.
  pub prune_cases :
      (n : Bytes) (k : ℕ) (base : Bytes) (d : Disk)
      → (get n (prune fails short k base d).files ≡ get n d.files)
        ⊎ ((k ≢ 0)
            × (parse_rotation_suffix n base ≢ none)
            × (get n (prune fails short k base d).files ≡ none))
  unfolding prune
  prune_cases n zero base d = inl refl
  prune_cases n (suc k) base d =
      let limited : suc k ≢ 0 = λ z. absurd (omega (arith, z)) in
      elim ((prune_keeps_newest fails short (suc k) base d limited).1 n) [
        | inl same ↦ inl same
        | inr (p, gone) ↦ inr (
          limited,
          IsPath-candidates base (seen fails short d)
              (IsPath-victims (suc k) base (seen fails short d) p),
          gone,
        )
      ]

  spared :
      (n : Bytes) (k : ℕ) (base : Bytes) (d : Disk)
      → parse_rotation_suffix n base ≡ none
      → get n (prune fails short k base d).files ≡ get n d.files
  spared n k base d e = elim (prune_cases n k base d) [
    | inl same ↦ same
    | inr (limited, rotated, gone) ↦ absurd (rotated e)
  ]

  -- Pruning, with any limit and whatever calls of the system fail, neither deletes nor changes a file
  -- unless its name is the base name, a dot, and eight digits, an underscore and six digits, which may
  -- be followed by a dot and one digit or more; and the base name itself is none of these. With a limit
  -- other than 0, if no call fails, the directory has then no more files of such names than the limit.
  pub prune_spares :
      (k : ℕ) (base : Bytes) (d : Disk)
      → ((n : Bytes) → IsOther base n → get n (prune fails short k base d).files ≡ get n d.files)
        × (get base (prune fails short k base d).files ≡ get base d.files)
        × (k ≢ 0
            → ((i : ℕ) → fails i ≡ false)
            → (cs : List Candidate) × Reads base (names (prune fails short k base d).files) cs
              × (length cs ≤ k))
  prune_spares k base d = (
    (λ n o. spared n k base d (none-IsOther base n o)),
    spared base k base d (base_unrotated base),
    λ limited fine. (
      candidates base (names (prune fails short k base d).files),
      candidates-Reads base (names (prune fails short k base d).files),
      prune-limited fails short k base d limited fine,
    ),
  )
