-- ===== src/RotatingSink/Shift.antt =====
-- What becomes of the files of a rotating sink: the file under the base name grows, or is moved away.
use sim_logger.Prelude.{
  Option, ◌⊎◌, ℕ, suc, ◌≤◌, length, Bool, true, false, List, [], ◌++◌, none, some, ◌≡◌, ◌≢◌, inl,
  inr, refl, sym, ap, ◌∙◌, arith, Bool-cases, Option-cases, if◌then◌else◌, append-nil, Bytes,
}
use sim_logger.Disk.{
  Disk, File, get, put, del, text_of, has_file, fopen, fflush, rename, file_size_or_zero,
}
use sim_logger.Disk.Files.{
  get-put_self, get-put_ne, get-del_ne, get-del_self, text_of-put_self, text_of-get,
}
use sim_logger.FileSink.{FileSink, flush_locked, open_locked, reopen}
use sim_logger.FileSink.Append.{Appended}
use sim_logger.Prune.{prune}
use sim_logger.Prune.Spared.{prune_cases, prune_spares}
use sim_logger.Rotation.{parse_rotation_suffix}

-- A rotated file of the base name, where the number of these is limited.
abbrev pub IsPrunable : ℕ → Bytes → Bytes → Type 0
IsPrunable max base m = (max ≢ 0) × (parse_rotation_suffix m base ≢ none)

-- A file that was `was` is so still, or it was pruned.
abbrev pub Survives : ℕ → Bytes → Bytes → Option Bytes → List File → Type 0
Survives max base m was fs' = (get m fs' ≡ was) ⊎ (IsPrunable max base m × (get m fs' ≡ none))

-- The file under the base name was moved to a name that was free and a new one has been begun, with
-- `added` written. No other file has changed, but for those pruned.
pub record Moves (max : ℕ) (base added : Bytes) (fs fs' : List File) : Type 0 where
  pub name : Bytes
  pub apart : base ≢ name
  pub free : get name fs ≡ none
  pub kept : Survives max base name (some (text_of base fs)) fs'
  pub begun : text_of base fs' ≡ added
  pub others : (m : Bytes) → base ≢ m → name ≢ m → Survives max base m (get m fs) fs'

-- What may have become of the file under the base name, with `added` written: it has grown, and no
-- other file has changed, or it was moved.
pub data Shift (max : ℕ) (base added : Bytes) (fs fs' : List File) : Type 0 where
  stays :
      text_of base fs' ≡ text_of base fs ++ added
      → ((m : Bytes) → base ≢ m → get m fs' ≡ get m fs)
      → Shift max base added fs fs'
  moves : Moves max base added fs fs' → Shift max base added fs fs'

pub Shift-same : (max : ℕ) (base : Bytes) {fs fs' : List File} → fs' ≡ fs → Shift max base [] fs fs'
Shift-same max base {fs = fs} e =
    stays (ap (text_of base) e ∙ sym (append-nil (text_of base fs))) (λ m h. ap (get m) e)

Survives-same :
    (max : ℕ) (base m : Bytes) (was : Option Bytes) (fs fs' : List File)
    → get m fs' ≡ get m fs
    → Survives max base m was fs
    → Survives max base m was fs'
Survives-same max base m was fs fs' e (inl same) = inl (e ∙ same)
Survives-same max base m was fs fs' e (inr (p, gone)) = inr (p, e ∙ gone)

-- A change of no file but the base file.
Moves-same :
    {max : ℕ} {base added : Bytes} {fs gs hs : List File} (added' : Bytes)
    → text_of base hs ≡ added'
    → ((m : Bytes) → base ≢ m → get m hs ≡ get m gs)
    → Moves max base added fs gs
    → Moves max base added' fs hs
Moves-same {max = max} {base = base} {fs = fs} {gs = gs} {hs = hs} added' begun same v = record {
  name = v.name;
  apart = v.apart;
  free = v.free;
  kept = Survives-same max base v.name (some (text_of base fs)) gs hs (same v.name v.apart) v.kept;
  begun = begun;
  others = λ m h g. Survives-same max base m (get m fs) gs hs (same m h) (v.others m h g);
}

-- Writing behind a shift.
pub Shift-append :
    {max : ℕ} {base text : Bytes} {fs : List File} {d d' : Disk} {b : Bool}
    → Shift max base [] fs d.files
    → (a : Appended base text d b d') → Shift max base a.added fs d'.files
Shift-append {base = base} {fs = fs} {d = d} (stays grown others) a =
    stays (a.grown ∙ ap (λ t. t ++ a.added) (grown ∙ append-nil (text_of base fs)))
      (λ m h. a.others m h ∙ others m h)
Shift-append {base = base} (moves v) a =
    moves (Moves-same a.added (a.grown ∙ ap (λ t. t ++ a.added) v.begun) a.others v)

pub has_file-get :
    (unseen : ℕ → Bytes → Bool) (d : Disk) (n : Bytes)
    → unseen d.calls n ≡ false
    → has_file unseen d n ≡ false
    → get n d.files ≡ none
unfolding has_file
has_file-get unseen d n seen e = elim (Option-cases (get n d.files)) [
  | inl x ↦ x
  | inr (c, x) ↦ cc (rw (has_file, seen, x) at e)
]

-- What `rename` comes to.
pub data Renamed (from to : Bytes) (d : Disk) : Bool × Disk → Type 0 where
  renamed :
      {d' : Disk} (c : Bytes)
      → get from d.files ≡ some c
      → d'.files ≡ put to c (del from d.files)
      → Renamed from to d (true, d')
  not_renamed : {d' : Disk} → d'.files ≡ d.files → Renamed from to d (false, d')

-- What reopening comes to.
pub data Opened (path : Bytes) (d : Disk) : Bool × FileSink × Disk → Type 0 where
  opened :
      {s : FileSink} {d' : Disk}
      → s.file ≡ some path
      → d'.files ≡ put path (text_of path d.files) d.files
      → s.bytes_written ≤ length (text_of path d.files)
      → Opened path d (true, s, d')
  not_opened :
      {s : FileSink} {d' : Disk} → s.file ≡ none → d'.files ≡ d.files → Opened path d (false, s, d')

size_le :
    (b : Bool) (path : Bytes) (fs : List File)
    → (if b then 0 else length (text_of path (put path (text_of path fs) fs)))
      ≤ length (text_of path fs)
size_le true path fs = omega arith
size_le false path fs = omega (arith, ap length (text_of-put_self path (text_of path fs) fs))

pub text_of-none : (n : Bytes) (gs : List File) → get n gs ≡ none → text_of n gs ≡ []
unfolding text_of
text_of-none n gs e = rw (e, text_of)

pub moved_text :
    (base name c : Bytes) (fs : List File)
    → base ≢ name
    → text_of base (put name c (del base fs)) ≡ []
moved_text base name c fs apart =
    text_of-none base (put name c (del base fs))
      (get-put_ne base name c (del base fs) (λ e. apart (sym e)) ∙ get-del_self base fs)

-- Of the moved files, seen from before the move.
pub moved_away :
    (max : ℕ) (base name c : Bytes) (fs : List File)
    → base ≢ name
    → get name fs ≡ none
    → get base fs ≡ some c
    → Moves max base [] fs (put name c (del base fs))
moved_away max base name c fs apart free here = record {
  name = name;
  apart = apart;
  free = free;
  kept = inl (get-put_self name c (del base fs) ∙ ap some (sym (text_of-get base c fs here)));
  begun = moved_text base name c fs apart;
  others = λ m h g. inl (get-put_ne m name c (del base fs) g ∙ get-del_ne m base fs h);
}

-- Opening the base file again.
pub Moves-reopen :
    {max : ℕ} {base : Bytes} {fs : List File} (gs : List File)
    → Moves max base [] fs gs
    → Moves max base [] fs (put base (text_of base gs) gs)
Moves-reopen {base = base} gs v =
    Moves-same [] (text_of-put_self base (text_of base gs) gs ∙ v.begun)
      (λ m h. get-put_ne m base (text_of base gs) gs h) v

module _ (fails : ℕ → Bool) (short : ℕ → ℕ) where
  pub flush_locked-files :
      (s : FileSink) (d : Disk) → (flush_locked fails short s d).1.files ≡ d.files
  unfolding flush_locked fflush
  flush_locked-files s d = ground arith

  pub rename-Renamed :
      (from to : Bytes) (d : Disk) → Renamed from to d (rename fails short from to d)
  unfolding rename
  rename-Renamed from to d = elim (Option-cases (get from d.files)) [
    | inl e ↦ rw (e, rename) (not_renamed refl)
    | inr (c, e) ↦
        rw (e, rename)
          (elim (Bool-cases (fails d.calls)) [
            | inl x ↦ rw x (not_renamed refl)
            | inr x ↦ rw x (renamed c e refl)
          ])
  ]

  pub reopen-Opened :
      (path : Bytes) (s : FileSink) (d : Disk) → Opened path d (reopen fails short path s d)
  unfolding reopen open_locked fopen file_size_or_zero
  reopen-Opened path s d = elim (Bool-cases (fails d.calls)) [
    | inl x ↦ rw x (not_opened refl refl)
    | inr x ↦ rw x (opened refl refl (size_le (fails (suc d.calls)) path d.files))
  ]

  pub prune-text :
      (k : ℕ) (base : Bytes) (d : Disk)
      → text_of base (prune fails short k base d).files ≡ text_of base d.files
  unfolding text_of
  prune-text k base d =
      ap (λ o. elim o [ some c ↦ c | none ↦ [] ]) (prune_spares fails short k base d).1

  prune-Survives :
      (max : ℕ) (base m : Bytes) (was : Option Bytes) (d : Disk)
      → Survives max base m was d.files
      → Survives max base m was (prune fails short max base d).files
  prune-Survives max base m was d sv = elim (prune_cases fails short m max base d) [
    | inl same ↦ Survives-same max base m was d.files (prune fails short max base d).files same sv
    | inr (limited, rotated, gone) ↦ inr ((limited, rotated), gone)
  ]

  pub Moves-prune :
      {max : ℕ} {base added : Bytes} {fs : List File} (d : Disk)
      → Moves max base added fs d.files
      → Moves max base added fs (prune fails short max base d).files
  Moves-prune {max = max} {base = base} {fs = fs} d v = record {
    name = v.name;
    apart = v.apart;
    free = v.free;
    kept = prune-Survives max base v.name (some (text_of base fs)) d v.kept;
    begun = prune-text max base d ∙ v.begun;
    others = λ m h g. prune-Survives max base m (get m fs) d (v.others m h g);
  }
