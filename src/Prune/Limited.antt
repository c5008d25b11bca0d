-- ===== src/Prune/Limited.antt =====
-- As many rotated files as the limit allows are left by a pruning in which no call fails.
use sim_logger.Prelude.{
  ℕ, suc, ◌≤◌, Bool, true, false, List, [], ◌∷◌, ◌++◌, none, some, ◌≡◌, ◌≢◌, refl, sym, ap, ◌∙◌,
  arith, ◌-◌, take, drop, take-append-drop, length-drop, leb, if◌then◌else◌, not, ◌&&◌, inl, inr,
  Bool-cases, Option-cases, map, length, Bytes, bytes_eq, bytes_eq_iff,
}
use sim_logger.Rotation.{parse_rotation_suffix}
use sim_logger.Disk.{Disk, File, del, remove, list_names}
use sim_logger.Prune.{before, insert, sort, Candidate, candidates, victims, remove_all, prune}
use sim_logger.Prune.Newest.{IsPath, first, later, seen, length-sort, prune-files}

pub names : List File → List Bytes
names fs = map (λ f. f.name) fs

-- Those that pass a test.
keep : (Candidate → Bool) → List Candidate → List Candidate
keep q [] = []
keep q (c ∷ cs) = let rest = keep q cs in if q c then c ∷ rest else rest

-- Those of another name than these.
spares : List Candidate → Candidate → Bool
spares [] c = true
spares (v ∷ vs) c = not (bytes_eq c.path v.path) && spares vs c

del_all : List Candidate → List File → List File
del_all [] fs = fs
del_all (c ∷ cs) fs = del_all cs (del c.path fs)

pub candidates-skip :
    (base m : Bytes) (names : List Bytes)
    → parse_rotation_suffix m base ≡ none
    → candidates base (m ∷ names) ≡ candidates base names
unfolding candidates
candidates-skip base m names e = rw (e, candidates)

pub candidates-keep :
    (base m : Bytes) (names : List Bytes) (ts : Bytes) (seq : ℕ)
    → parse_rotation_suffix m base ≡ some (ts, seq)
    → candidates base (m ∷ names) ≡ record { path = m; ts = ts; seq = seq } ∷ candidates base names
unfolding candidates
candidates-keep base m names ts seq e = rw (e, candidates)

keep-hit :
    (q : Candidate → Bool) (c : Candidate) (cs : List Candidate)
    → q c ≡ true
    → keep q (c ∷ cs) ≡ c ∷ keep q cs
unfolding keep
keep-hit q c cs e = rw e

keep-miss :
    (q : Candidate → Bool) (c : Candidate) (cs : List Candidate)
    → q c ≡ false
    → keep q (c ∷ cs) ≡ keep q cs
unfolding keep
keep-miss q c cs e = rw e

names-del_hit :
    (p : Bytes) (f : File) (fs : List File)
    → bytes_eq f.name p ≡ true
    → names (del p (f ∷ fs)) ≡ names (del p fs)
unfolding del
names-del_hit p f fs e = ap names (rw e)

names-del_miss :
    (p : Bytes) (f : File) (fs : List File)
    → bytes_eq f.name p ≡ false
    → names (del p (f ∷ fs)) ≡ f.name ∷ names (del p fs)
unfolding del names
names-del_miss p f fs e = ap names {y = f ∷ del p fs} (rw e)

-- A pass of `del` over the directory.
candidates-del :
    (base p : Bytes) (fs : List File)
    → candidates base (names (del p fs))
      ≡ keep (λ c. not (bytes_eq c.path p)) (candidates base (names fs))
unfolding names keep candidates del
candidates-del base p [] = refl
candidates-del base p (f ∷ fs) =
    let q : Candidate → Bool = λ c. not (bytes_eq c.path p) in
    let tail = candidates-del base p fs in
    elim (Option-cases (parse_rotation_suffix f.name base)) [
      | inl e ↦
          let all = ap (keep q) (candidates-skip base f.name (names fs) e) in
          elim (Bool-cases (bytes_eq f.name p)) [
            | inl it ↦ ap (candidates base) (names-del_hit p f fs it) ∙ tail ∙ sym all
            | inr other ↦
                ap (candidates base) (names-del_miss p f fs other)
                ∙ candidates-skip base f.name (names (del p fs)) e
                ∙ tail
                ∙ sym all
          ]
      | inr ((ts, seq), e) ↦
          let c : Candidate = record { path = f.name; ts = ts; seq = seq } in
          let all = ap (keep q) (candidates-keep base f.name (names fs) ts seq e) in
          elim (Bool-cases (bytes_eq f.name p)) [
            | inl it ↦
                ap (candidates base) (names-del_hit p f fs it)
                ∙ tail
                ∙ sym (all ∙ keep-miss q c (candidates base (names fs)) (ap not it))
            | inr other ↦
                ap (candidates base) (names-del_miss p f fs other)
                ∙ candidates-keep base f.name (names (del p fs)) ts seq e
                ∙ ap (λ cs. c ∷ cs) tail
                ∙ sym (all ∙ keep-hit q c (candidates base (names fs)) (ap not other))
          ]
    ]

keep-all : (cs : List Candidate) → keep (spares []) cs ≡ cs
unfolding keep spares
keep-all [] = refl
keep-all (c ∷ cs) = ap (λ ds. c ∷ ds) (keep-all cs)

keep-keep :
    (q r : Candidate → Bool) (cs : List Candidate) → keep q (keep r cs) ≡ keep (λ c. r c && q c) cs
unfolding keep
keep-keep q r [] = refl
keep-keep q r (c ∷ cs) = elim (Bool-cases (r c)) [
  | inr e ↦ rw e (keep-keep q r cs)
  | inl e ↦ elim (Bool-cases (q c)) [
    | inl x ↦ rw (e, x) (ap (λ ds. c ∷ ds) (keep-keep q r cs))
    | inr x ↦ rw (e, x) (keep-keep q r cs)
  ]
]

candidates-del_all :
    (base : Bytes) (vs : List Candidate) (fs : List File)
    → candidates base (names (del_all vs fs)) ≡ keep (spares vs) (candidates base (names fs))
unfolding del_all spares
candidates-del_all base [] fs = sym (keep-all (candidates base (names fs)))
candidates-del_all base (v ∷ vs) fs =
    candidates-del_all base vs (del v.path fs)
    ∙ ap (keep (spares vs)) (candidates-del base v.path fs)
    ∙ keep-keep (spares vs) (λ c. not (bytes_eq c.path v.path)) (candidates base (names fs))

length-keep-insert :
    (q : Candidate → Bool) (c : Candidate) (s : List Candidate)
    → length (keep q (insert c s)) ≡ length (keep q (c ∷ s))
unfolding insert keep
length-keep-insert q c [] = refl
length-keep-insert q c (b ∷ s) =
    let rest = length-keep-insert q c s in
    elim (Bool-cases (before c b)) [
      | inl e ↦ rw e
      | inr e ↦ elim (Bool-cases (q c)) [
        | inl x ↦ elim (Bool-cases (q b)) [
          | inl y ↦ rw (e, x, y) (ap suc (rw x at rest))
          | inr y ↦ rw (e, x, y) (rw x at rest)
        ]
        | inr x ↦ elim (Bool-cases (q b)) [
          | inl y ↦ rw (e, x, y) (ap suc (rw x at rest))
          | inr y ↦ rw (e, x, y) (rw x at rest)
        ]
      ]
    ]

length-keep-sort :
    (q : Candidate → Bool) (s : List Candidate) → length (keep q (sort s)) ≡ length (keep q s)
unfolding sort keep
length-keep-sort q [] = refl
length-keep-sort q (c ∷ s) = length-keep-insert q c (sort s) ∙ elim (Bool-cases (q c)) [
  | inl e ↦ rw e (ap suc (length-keep-sort q s))
  | inr e ↦ rw e (length-keep-sort q s)
]

keep-append :
    (q : Candidate → Bool) (xs ys : List Candidate) → keep q (xs ++ ys) ≡ keep q xs ++ keep q ys
unfolding keep
keep-append q [] ys = refl
keep-append q (x ∷ xs) ys = elim (Bool-cases (q x)) [
  | inl e ↦ rw e (ap (λ ds. x ∷ ds) (keep-append q xs ys))
  | inr e ↦ rw e (keep-append q xs ys)
]

keep-shorter : (q : Candidate → Bool) (xs : List Candidate) → length (keep q xs) ≤ length xs
unfolding keep
keep-shorter q [] = omega arith
keep-shorter q (x ∷ xs) = elim (Bool-cases (q x)) [
  | inl e ↦ rw e (omega (arith, keep-shorter q xs))
  | inr e ↦ rw e (omega (arith, keep-shorter q xs))
]

spares-IsPath : (vs : List Candidate) (c : Candidate) → IsPath c.path vs → spares vs c ≡ false
unfolding spares
spares-IsPath [] c p = elim p [ ]
spares-IsPath (v ∷ vs) c (first e) = rw ((bytes_eq_iff c.path v.path).1 (sym e))
spares-IsPath (v ∷ vs) c (later p) = ground (arith, spares-IsPath vs c p)

none_spared :
    (us vs : List Candidate) → ((n : Bytes) → IsPath n us → IsPath n vs) → keep (spares vs) us ≡ []
unfolding keep
none_spared [] vs f = refl
none_spared (u ∷ us) vs f =
    keep-miss (spares vs) u us (spares-IsPath vs u (f u.path (first refl)))
    ∙ none_spared us vs (λ n p. f n (later p))

victims-enough :
    (k : ℕ) (base : Bytes) (ns : List Bytes)
    → length (keep (spares (victims k base ns)) (candidates base ns)) ≤ k
unfolding victims
victims-enough k base ns =
    let cs = candidates base ns in
    elim (Bool-cases (leb (length cs) k)) [
      | inl e ↦ rw e (ground (arith, e, keep-shorter (spares []) cs))
      | inr e ↦
          let n = length cs - k in
          let vs = take n (sort cs) in
          let left = drop n (sort cs) in
          let parts : length (keep (spares vs) (sort cs)) ≡ length (keep (spares vs) left) =
            ap (λ ds. length (keep (spares vs) ds)) (sym (take-append-drop n (sort cs)))
            ∙ ap length (keep-append (spares vs) vs left)
            ∙ ap (λ ds. length (ds ++ keep (spares vs) left)) (none_spared vs vs (λ m p. p)) in
          rw e (
            ground (
              arith,
              e,
              length-keep-sort (spares vs) cs,
              parts,
              keep-shorter (spares vs) left,
              length-drop n (sort cs),
              length-sort cs,
            ))
    ]

module _ (fails : ℕ → Bool) (short : ℕ → ℕ) where
  all_deleted :
      (cs : List Candidate) (d : Disk)
      → ((i : ℕ) → fails i ≡ false)
      → (remove_all fails short cs d).files ≡ del_all cs d.files
  unfolding remove_all remove del_all
  all_deleted [] d fine = refl
  all_deleted (c ∷ cs) d fine =
      all_deleted cs (remove fails short c.path d) fine ∙ ap (del_all cs) (rw (fine d.calls))

  seen-names : (d : Disk) → ((i : ℕ) → fails i ≡ false) → seen fails short d ≡ names d.files
  unfolding list_names names
  seen-names d fine = rw (fine d.calls)

  -- Behind a pruning in which no call fails there are no more rotated files than the limit allows.
  pub prune-limited :
      (k : ℕ) (base : Bytes) (d : Disk)
      → k ≢ 0
      → ((i : ℕ) → fails i ≡ false)
      → length (candidates base (names (prune fails short k base d).files)) ≤ k
  unfolding list_names
  prune-limited k base d h fine =
      let vs = victims k base (names d.files) in
      let files : (prune fails short k base d).files ≡ del_all vs d.files =
        ap (λ e. e.files) (prune-files fails short k base d h)
        ∙ all_deleted (victims k base (seen fails short d)) (list_names fails short d).1 fine
        ∙ ap (λ ns. del_all (victims k base ns) d.files) (seen-names d fine) in
      rw (files, candidates-del_all base vs d.files) (victims-enough k base (names d.files))
