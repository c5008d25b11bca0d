-- ===== src/RotatingSink/Log.antt =====
-- The log that many writes leave: the moved files in the order of the rotations, then the base file.
use sim_logger.Prelude.{
  ℕ, Bool, true, false, List, [], ◌∷◌, ◌++◌, ◌≡◌, ◌≢◌, ◌≤◌, none, some, inl, inr, refl, sym, ap,
  ◌∙◌, subst, arith, append-nil, Bytes,
}
use sim_logger.Disk.{Disk, File, get, text_of}
use sim_logger.FileSink.Append.{full_line}
use sim_logger.RotatingSink.{RotatingFileSink, write_formatted}
use sim_logger.RotatingSink.Shift.{IsPrunable, Shift}
use sim_logger.RotatingSink.Rotate.{AllSeen, IsSink}
use sim_logger.RotatingSink.Kept.{write_formatted-Written}
use sim_logger.RotatingSink.Archives.{
  Archive, texts, IsNamed, WasFree, IsGone, IsKept, AllKept, Log, Log-cons,
}

-- A line, and the time at which it is written.
pub record Line : Type 0 where
  pub time : Bytes
  pub text : Bytes

-- The bytes of the lines in the log: a write that returned has put its line there in whole, one that
-- threw a part of it from its start.
pub data Logged : List Line → List Bool → Bytes → Type 0 where
  nothing : Logged [] [] []
  whole :
      {l : Line} {ls : List Line} {bs : List Bool} {t : Bytes}
      → Logged ls bs t
      → Logged (l ∷ ls) (true ∷ bs) (full_line l.text ++ t)
  part :
      {l : Line} {ls : List Line} {bs : List Bool} {t : Bytes} (a m : Bytes)
      → a ++ m ≡ full_line l.text
      → Logged ls bs t
      → Logged (l ∷ ls) (false ∷ bs) (a ++ t)

-- Each archive has a name of its own, which is not that of the base file and which no file had, and
-- stands under it with its text.
abbrev pub AllIntact : Bytes → List File → List File → List Archive → Type 0
AllIntact base fs fs' [] = 0 ≤ 0
AllIntact base fs fs' (a ∷ more) =
    (base ≢ a.name)
    × (get a.name fs ≡ none)
    × (¬ (IsNamed a.name more))
    × (get a.name fs' ≡ some a.text)
    × AllIntact base fs fs' more

-- What the writes of these lines leave of the files where nothing is lost.
pub record LosesNothing (base : Bytes) (ls : List Line) (fs : List File)
    (out : List Bool × RotatingFileSink × Disk) : Type 0 where
  pub archives : List Archive
  pub intact : AllIntact base fs out.2.files archives
  pub added : Bytes
  pub logged : Logged ls out.0 added
  pub log : texts archives ++ text_of base out.2.files ≡ text_of base fs ++ added
  pub old : (m c : Bytes) → base ≢ m → get m fs ≡ some c → get m out.2.files ≡ some c
  pub absent : (m : Bytes) → base ≢ m → get m fs ≡ none → IsGone m archives out.2.files

module _ (fails : ℕ → Bool) (short : ℕ → ℕ) (unseen : ℕ → Bytes → Bool) where
  -- The lines are written in turn; an exception ends one call only.
  unfoldable pub write_lines :
      List Line → RotatingFileSink → Disk → List Bool × RotatingFileSink × Disk
  unfolding write_formatted
  write_lines [] s d = ([], s, d)
  write_lines (l ∷ ls) s d =
      let (b, s1, d1) = write_formatted fails short unseen l.time l.text s d in
      let (bs, s2, d2) = write_lines ls s1 d1 in (b ∷ bs, s2, d2)

  -- What many writes leave.
  pub record Wrote (max : ℕ) (base : Bytes) (ls : List Line) (fs : List File)
      (out : List Bool × RotatingFileSink × Disk) : Type 0 where
    pub added : Bytes
    pub logged : Logged ls out.0 added
    pub files : Log max base added fs out.2.files

  Logged-cons :
      {ls : List Line} {bs : List Bool} {t : Bytes} (l : Line) (a m : Bytes) (b : Bool)
      → a ++ m ≡ full_line l.text
      → (b ≡ true → m ≡ [])
      → Logged ls bs t
      → Logged (l ∷ ls) (b ∷ bs) (a ++ t)
  Logged-cons {ls = ls} {bs = bs} {t = t} l a m true split complete rest =
      subst (λ x. Logged (l ∷ ls) (true ∷ bs) (x ++ t))
        (sym split ∙ ap (λ x. a ++ x) (complete refl) ∙ append-nil a) (whole rest)
  Logged-cons l a m false split complete rest = part a m split rest

  write_lines-Wrote :
      (ls : List Line) (s : RotatingFileSink) (d : Disk) (max : ℕ) (base : Bytes)
      → AllSeen fails short unseen
      → IsSink s
      → s.max_rotated_files ≡ max
      → s.base_path ≡ base
      → Wrote max base ls d.files (write_lines ls s d)
  unfolding write_lines
  write_lines-Wrote [] s d max base seen ok limit same = record {
    added = [];
    logged = nothing;
    files = record {
      archives = [];
      kept = omega arith;
      log = sym (append-nil (text_of base d.files));
      old = λ m c h e. inl e;
      absent = λ m h e. inl e;
    };
  }
  write_lines-Wrote (l ∷ ls) s d max base seen ok limit same =
      let w = write_formatted-Written fails short unseen l.time l.text s d seen ok in
      let out = write_formatted fails short unseen l.time l.text s d in
      let rest =
        write_lines-Wrote ls out.1 out.2 max base seen w.sink (w.limit ∙ limit) (w.path ∙ same) in
      record {
        added = w.added ++ rest.added;
        logged = Logged-cons l w.added w.missing out.0 w.split w.complete rest.logged;
        files =
            Log-cons max base w.added rest.added
              (subst (λ k. Shift k base w.added d.files out.2.files) limit
                (subst (λ p. Shift s.max_rotated_files p w.added d.files out.2.files) same w.shift))
              rest.files;
      }

  unlimited : (base m : Bytes) → ¬ (IsPrunable 0 base m)
  unlimited base m (h, rotated) = h refl

  IsKept-intact :
      (base m c : Bytes) (more : List Archive) (fs : List File)
      → IsKept 0 base m c more fs
      → get m fs ≡ some c
  IsKept-intact base m c more fs (inl e) = e
  IsKept-intact base m c more fs (inr (p, gone)) = absurd (unlimited base m p)

  WasFree-none : (base m : Bytes) (fs : List File) → WasFree 0 base m fs → get m fs ≡ none
  WasFree-none base m fs (inl e) = e
  WasFree-none base m fs (inr p) = absurd (unlimited base m p)

  AllKept-AllIntact :
      (base : Bytes) (fs fs' : List File) (archives : List Archive)
      → AllKept 0 base fs fs' archives
      → AllIntact base fs fs' archives
  AllKept-AllIntact base fs fs' [] kept = omega arith
  AllKept-AllIntact base fs fs' (a ∷ more) (apart, free, named, it, kept) = (
    apart,
    WasFree-none base a.name fs free,
    (λ n. unlimited base a.name (named n)),
    IsKept-intact base a.name a.text more fs' it,
    AllKept-AllIntact base fs fs' more kept,
  )

  -- Lines written one after the other to a rotating sink that does not limit the number of rotated
  -- files, each at any time, whatever calls of the system fail but for the tests for the existence of a
  -- file: the files that the rotations made stand under names of their own, which no file had, each
  -- with the text that the base file had when it was moved; these texts in their order and then that
  -- of the base file are what the base file held before and then the bytes of the lines, each line in
  -- whole if its call returned and else a part from its start. Every other file that was there has its
  -- text still, and no other file was made.
  pub rotations_lose_nothing :
      (ls : List Line) (s : RotatingFileSink) (d : Disk)
      → AllSeen fails short unseen
      → IsSink s
      → s.max_rotated_files ≡ 0
      → LosesNothing s.base_path ls d.files (write_lines ls s d)
  rotations_lose_nothing ls s d seen ok unlimited_sink =
      let w = write_lines-Wrote ls s d 0 s.base_path seen ok unlimited_sink refl in
      let (bs, s1, d1) = write_lines ls s d in
      record {
        archives = w.files.archives;
        intact = AllKept-AllIntact s.base_path d.files d1.files w.files.archives w.files.kept;
        added = w.added;
        logged = w.logged;
        log = w.files.log;
        old = λ m c h e.
            IsKept-intact s.base_path m c w.files.archives d1.files (w.files.old m c h e);
        absent = w.files.absent;
      }
