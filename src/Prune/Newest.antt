-- ===== src/Prune/Newest.antt =====
-- Pruning deletes the oldest of the rotated files, as many as are over the limit.
use mathlib.Core.Bool.{Bool-set}
use mathlib.Core.List.{Perm, Pairwise, Pairwise-singleton, forall_mem-cons}
use mathlib.Core.List.Perm
use mathlib.Core.List.Pairwise
use sim_logger.Prelude.{
  ℕ, suc, ◌-◌, Bool, true, false, List, [], ◌∷◌, ◌++◌, none, ◌≡◌, ◌≢◌, ◌⊎◌, refl, sym, ap, ◌∙◌, inl,
  inr, subst, arith, Bool-cases, leb, ◌==◌, length, length-drop, drop, take-append-drop, min, Bytes,
  bytes_eq, bytes_eq_iff,
}
use sim_logger.Disk.{Disk, File, get, remove, list_names}
use sim_logger.Disk.Files.{get-del}
use sim_logger.Prune.{Candidate, before, insert, sort, candidates, victims, remove_all, prune}
use sim_logger.Prune.Order.{before_irrefl, before_trans, IsOlder, IsOlder-before}
use sim_logger.Prune.Reads.{Reads, candidates-Reads}

-- `b` does not stand before `a` in the comparison of the sort.
abbrev NotAfter : Candidate → Candidate → Type 0
NotAfter a b = before b a ≡ false

before-asym : (a b : Candidate) → before a b ≡ true → before b a ≡ false
before-asym a b p = elim (Bool-cases (before b a)) [
  | inr e ↦ e
  | inl q ↦ cc (before_trans a b a p q, before_irrefl a)
]

NotAfter-before : (a b c : Candidate) → before a b ≡ true → NotAfter b c → NotAfter a c
NotAfter-before a b c p h = elim (Bool-cases (before c a)) [
  | inr e ↦ e
  | inl q ↦ cc (before_trans c a b q p)
]

insert-perm : (c : Candidate) (s : List Candidate) → Perm (insert c s) (c ∷ s)
unfolding insert
insert-perm c [] = Perm.rfl
insert-perm c (b ∷ s) = elim (Bool-cases (before c b)) [
  | inl e ↦ rw e Perm.rfl
  | inr e ↦ rw e (Perm.trans (Perm.cons b (insert-perm c s)) (Perm.swap c b s))
]

insert-Pairwise :
    (c : Candidate) {s : List Candidate} → Pairwise NotAfter s → Pairwise NotAfter (insert c s)
unfolding insert
insert-Pairwise c Pairwise.nil = Pairwise-singleton NotAfter c
insert-Pairwise c (Pairwise.cons {a = b} {l = s} below sorted) = elim (Bool-cases (before c b)) [
  | inl e ↦ rw e (
      Pairwise.cons
        ((forall_mem-cons (λ x. Bool-set (before x c) false)).1
          (before-asym c b e, λ x m. NotAfter-before c b x e (below x m)))
        (Pairwise.cons below sorted))
  | inr e ↦ rw e (
      Pairwise.cons
        (λ x m.
          (forall_mem-cons (λ y. Bool-set (before y b) false)).1 (e, below) x
            ((Perm.mem_iff (insert-perm c s)).0 m))
        (insert-Pairwise c sorted))
]

sort-perm : (s : List Candidate) → Perm (sort s) s
unfolding sort
sort-perm [] = Perm.rfl
sort-perm (c ∷ s) = Perm.trans (insert-perm c (sort s)) (Perm.cons c (sort-perm s))

sort-Pairwise : (s : List Candidate) → Pairwise NotAfter (sort s)
unfolding sort
sort-Pairwise [] = Pairwise.nil
sort-Pairwise (c ∷ s) = insert-Pairwise c (sort-Pairwise s)

length-insert : (c : Candidate) (s : List Candidate) → length (insert c s) ≡ suc (length s)
unfolding insert
length-insert c [] = refl
length-insert c (b ∷ s) = elim (Bool-cases (before c b)) [
  | inl e ↦ rw e
  | inr e ↦ rw e (ap suc (length-insert c s))
]

pub length-sort : (s : List Candidate) → length (sort s) ≡ length s
unfolding sort
length-sort [] = refl
length-sort (c ∷ s) = length-insert c (sort s) ∙ ap suc (length-sort s)

-- The second file is not older than the first.
abbrev pub IsNotOlder : Candidate → Candidate → Type 0
IsNotOlder a b = ¬ (IsOlder b a)

NotAfter-IsNotOlder : (a b : Candidate) → NotAfter a b → IsNotOlder a b
NotAfter-IsNotOlder a b n older = cc (IsOlder-before b a older, n)

NotAfter-Pairwise : {s : List Candidate} → Pairwise NotAfter s → Pairwise IsNotOlder s
NotAfter-Pairwise p = Pairwise.imp NotAfter-IsNotOlder p

-- The victims, and the rotated files that stay.
pub record Split (max_rotated : ℕ) (cs vs : List Candidate) : Type 0 where
  pub kept : List Candidate
  pub all : Perm (vs ++ kept) cs
  pub oldest_first : Pairwise IsNotOlder (vs ++ kept)
  pub limited : length kept ≡ min max_rotated (length cs)

victims-Split :
    (max_rotated : ℕ) (base : Bytes) (names : List Bytes)
    → Split max_rotated (candidates base names) (victims max_rotated base names)
unfolding victims
victims-Split k base names =
    let cs = candidates base names in
    elim (Bool-cases (leb (length cs) k)) [
      | inl e ↦ rw e (record {
        kept = sort cs;
        all = sort-perm cs;
        oldest_first = NotAfter-Pairwise (sort-Pairwise cs);
        limited = length-sort cs ∙ ground (arith, e);
      })
      | inr e ↦ rw e (record {
        kept = drop (length cs - k) (sort cs);
        all = rw (take-append-drop (length cs - k) (sort cs)) (sort-perm cs);
        oldest_first =
            NotAfter-Pairwise (rw (take-append-drop (length cs - k) (sort cs)) (sort-Pairwise cs));
        limited =
            length-drop (length cs - k) (sort cs)
            ∙ ap (λ n. n - (length cs - k)) (length-sort cs)
            ∙ ground (arith, e);
      })
    ]

-- The name is the path of one of these.
pub data IsPath (n : Bytes) : List Candidate → Type 0 where
  first : {c : Candidate} {cs : List Candidate} → c.path ≡ n → IsPath n (c ∷ cs)
  later : {c : Candidate} {cs : List Candidate} → IsPath n cs → IsPath n (c ∷ cs)

module _ (fails : ℕ → Bool) (short : ℕ → ℕ) where
  -- A file is as it was, or it was to be deleted and is gone.
  abbrev pub Deleted : Bytes → List Candidate → List File → List File → Type 0
  Deleted n cs fs fs' = (get n fs' ≡ get n fs) ⊎ (IsPath n cs × (get n fs' ≡ none))

  remove_file :
      (n p : Bytes) (d : Disk)
      → (get n (remove fails short p d).files ≡ get n d.files)
        ⊎ ((p ≡ n) × (get n (remove fails short p d).files ≡ none))
  unfolding remove
  remove_file n p d = elim (Bool-cases (fails d.calls)) [
    | inl e ↦ inl (rw e)
    | inr e ↦ elim (Bool-cases (bytes_eq p n)) [
      | inl y ↦ inr ((bytes_eq_iff p n).0 y, rw e (get-del n p d.files ∙ rw y))
      | inr x ↦ inl (rw e (get-del n p d.files ∙ rw x))
    ]
  ]

  still_gone :
      (n : Bytes) (cs : List Candidate) (d : Disk)
      → get n d.files ≡ none
      → get n (remove_all fails short cs d).files ≡ none
  unfolding remove_all
  still_gone n [] d e = e
  still_gone n (c ∷ cs) d e = elim (remove_file n c.path d) [
    | inl same ↦ still_gone n cs (remove fails short c.path d) (same ∙ e)
    | inr (p, gone) ↦ still_gone n cs (remove fails short c.path d) gone
  ]

  remove_all-Deleted :
      (n : Bytes) (cs : List Candidate) (d : Disk)
      → Deleted n cs d.files (remove_all fails short cs d).files
  unfolding remove_all
  remove_all-Deleted n [] d = inl refl
  remove_all-Deleted n (c ∷ cs) d = elim (remove_file n c.path d) [
    | inr (p, gone) ↦ inr (first p, still_gone n cs (remove fails short c.path d) gone)
    | inl same ↦ elim (remove_all-Deleted n cs (remove fails short c.path d)) [
      | inl rest ↦ inl (rest ∙ same)
      | inr (p, gone) ↦ inr (later p, gone)
    ]
  ]

  remove_fine :
      (n p : Bytes) (d : Disk)
      → p ≡ n
      → fails d.calls ≡ false
      → get n (remove fails short p d).files ≡ none
  unfolding remove
  remove_fine n p d e f = rw f (get-del n p d.files ∙ rw ((bytes_eq_iff p n).1 e))

  all_removed :
      (n : Bytes) (cs : List Candidate) (d : Disk)
      → ((i : ℕ) → fails i ≡ false)
      → IsPath n cs
      → get n (remove_all fails short cs d).files ≡ none
  unfolding remove_all
  all_removed n [] d fine p = elim p [ ]
  all_removed n (c ∷ cs) d fine (later p) = all_removed n cs (remove fails short c.path d) fine p
  all_removed n (c ∷ cs) d fine (first e) =
      still_gone n cs (remove fails short c.path d) (remove_fine n c.path d e (fine d.calls))

  -- The names that the pruning sees: those of the directory's files, or none if it cannot be listed.
  abbrev pub seen : Disk → List Bytes
  seen d = (list_names fails short d).0

  pub prune-files :
      (k : ℕ) (base : Bytes) (d : Disk)
      → k ≢ 0
      → prune fails short k base d
        ≡ remove_all fails short (victims k base (seen d)) (list_names fails short d).1
  unfolding prune
  prune-files k base d h = rw (nonzero k h)
    where
      nonzero : (n : ℕ) → n ≢ 0 → (n == 0) ≡ false
      nonzero n h = ground (arith, h)

  listed-files : (d : Disk) → (list_names fails short d).1.files ≡ d.files
  unfolding list_names
  listed-files d = refl

  -- With a limit on the rotated files, the pruning settles for a split of those that it sees, which
  -- are all the names of the base name, a timestamp and at most a number: none that it keeps is older
  -- than one that it is to delete, by the timestamp and then the number, and it keeps as many as the
  -- limit allows. It deletes no other file and changes none; and if no call of the system fails, it
  -- deletes all that it is to delete.
  pub prune_keeps_newest :
      (k : ℕ) (base : Bytes) (d : Disk)
      → k ≢ 0
      → ((cs : List Candidate) × Reads base (seen d) cs × Split k cs (victims k base (seen d)))
        × ((n : Bytes)
            → Deleted n (victims k base (seen d)) d.files (prune fails short k base d).files)
        × (((i : ℕ) → fails i ≡ false)
            → (n : Bytes) → IsPath n (victims k base (seen d))
            → get n (prune fails short k base d).files ≡ none)
  prune_keeps_newest k base d h =
      let d1 = (list_names fails short d).1 in
      let vs = victims k base (seen d) in
      (
        (candidates base (seen d), candidates-Reads base (seen d), victims-Split k base (seen d)),
        (λ n.
            subst (λ e. Deleted n vs d.files e.files) (sym (prune-files k base d h))
              (subst (λ fs. Deleted n vs fs (remove_all fails short vs d1).files) (listed-files d)
                (remove_all-Deleted n vs d1))),
        λ fine n p. ap (λ e. get n e.files) (prune-files k base d h) ∙ all_removed n vs d1 fine p,
      )
