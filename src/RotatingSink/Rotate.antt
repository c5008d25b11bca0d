-- ===== src/RotatingSink/Rotate.antt =====
-- What a rotation leaves, whatever calls of the system fail.
use sim_logger.Prelude.{
  ℕ, length, Bool, true, false, List, [], none, some, ◌≡◌, ◌≢◌, ◌<◌, ◌⊎◌, inl, inr, refl, sym, ap,
  ◌∙◌, subst, arith, Bool-cases, Option-cases, if◌then◌else◌, Bytes,
}
use sim_logger.Disk.{Disk, File, get, text_of, has_file, rename}
use sim_logger.Disk.Files.{text_of-put_self}
use sim_logger.FileSink.{FileSink, close, flush_locked, reopen}
use sim_logger.Rotation.{rotated_name}
use sim_logger.Rotation.Suffix.{rotated_name-free, rotated_name-longer}
use sim_logger.RotatingSink.{RotatingFileSink, resume, move_away, rotate}
use sim_logger.RotatingSink.Shift.{
  renamed, not_renamed, opened, not_opened, Shift, Shift-same, Moves, Moves-reopen, Moves-prune,
  prune-text, moves, has_file-get, flush_locked-files, Renamed, rename-Renamed, Opened,
  reopen-Opened, moved_away, moved_text,
}

-- The sinks that the operations leave: the stream is one on the base file or none.
pub record IsSink (s : RotatingFileSink) : Type 0 where
  pub stream : (s.base.file ≡ some s.base_path) ⊎ (s.base.file ≡ none)

module _ (fails : ℕ → Bool) (short : ℕ → ℕ) (unseen : ℕ → Bytes → Bool) where
  -- No test for the existence of a file fails.
  abbrev pub AllSeen : Type 0
  AllSeen = (i : ℕ) (n : Bytes) → unseen i n ≡ false

  -- What a rotation, or a part of it, leaves.
  pub record Rotates (s : RotatingFileSink) (fs : List File) (out : Bool × RotatingFileSink × Disk)
      : Type 0 where
    pub shift : AllSeen → Shift s.max_rotated_files s.base_path [] fs out.2.files
    pub sink : IsSink out.1
    pub path : out.1.base_path ≡ s.base_path
    pub limit : out.1.max_rotated_files ≡ s.max_rotated_files
    pub ready : out.0 ≡ true → out.1.base.file ≡ some s.base_path
    pub begun :
        out.0 ≡ true → (text_of s.base_path out.2.files ≡ []) × (out.1.base.bytes_written ≡ 0)

  resume-Rotates :
      (s : RotatingFileSink) (fs : List File) (d : Disk)
      → (AllSeen → Moves s.max_rotated_files s.base_path [] fs d.files)
      → text_of s.base_path d.files ≡ []
      → (o : Bool × FileSink × Disk) → reopen fails short s.base_path s.base d ≡ o
      → Opened s.base_path d o
      → Rotates s fs (resume fails short s d)
  unfolding resume
  resume-Rotates s fs d sh bare (true, f, d1) e (opened open_on files sized) = rw e (record {
    shift = λ seen. moves (
        Moves-prune fails short d1 (
          subst (λ gs. Moves s.max_rotated_files s.base_path [] fs gs) (sym files)
            (Moves-reopen d.files (sh seen))));
    sink = record { stream = inl open_on };
    path = refl;
    limit = refl;
    ready = λ _. open_on;
    begun = λ _. (
      prune-text fails short s.max_rotated_files s.base_path d1
          ∙ ap (text_of s.base_path) files
          ∙ text_of-put_self s.base_path (text_of s.base_path d.files) d.files
          ∙ bare,
      omega (arith, sized, ap length bare),
    );
  })
  resume-Rotates s fs d sh bare (false, f, d1) e (not_opened closed files) = rw e (record {
    shift = λ seen. moves (rw files (sh seen));
    sink = record { stream = inr closed };
    path = refl;
    limit = refl;
    ready = λ x. cc;
    begun = λ x. cc;
  })

  closed-Rotates :
      (s : RotatingFileSink) (fs : List File) (d : Disk)
      → s.base.file ≡ none
      → d.files ≡ fs
      → Rotates s fs (false, s, d)
  closed-Rotates s fs d closed e = record {
    shift = λ seen. Shift-same s.max_rotated_files s.base_path e;
    sink = record { stream = inr closed };
    path = refl;
    limit = refl;
    ready = λ x. cc;
    begun = λ x. cc;
  }

  apart : (base name : Bytes) → length base < length name → base ≢ name
  apart base name longer e = omega (arith, longer, ap length e)

  rename-Rotates :
      (s : RotatingFileSink) (d : Disk) (name : Bytes)
      → s.base.file ≡ none
      → length s.base_path < length name
      → (AllSeen → get name d.files ≡ none)
      → (o : Bool × Disk) → Renamed s.base_path name d o
      → Rotates s d.files (if o.0 then resume fails short s o.1 else (false, s, o.1))
  rename-Rotates s d name closed longer free (false, d1) (not_renamed same) =
      closed-Rotates s d.files d1 closed same
  rename-Rotates s d name closed longer free (true, d1) (renamed c here files) =
      resume-Rotates s d.files d1
        (λ seen. rw files (
          moved_away s.max_rotated_files s.base_path name c d.files (apart s.base_path name longer)
            (free seen) here))
        (rw files (moved_text s.base_path name c d.files (apart s.base_path name longer)))
        (reopen fails short s.base_path s.base d1) refl
        (reopen-Opened fails short s.base_path s.base d1)

  move_away-Rotates :
      (ts : Bytes) (s : RotatingFileSink) (d : Disk)
      → s.base.file ≡ none
      → Rotates s d.files (move_away fails short unseen ts s d)
  unfolding move_away
  move_away-Rotates ts s d closed =
      elim (Option-cases (rotated_name (has_file unseen d) s.base_path ts)) [
        | inl e ↦ rw (e, move_away) (closed-Rotates s d.files d closed refl)
        | inr (name, e) ↦
            rw (e, move_away)
              (rename-Rotates s d name closed
                (rotated_name-longer (has_file unseen d) s.base_path ts name e)
                (λ seen.
                  has_file-get unseen d name (seen d.calls name)
                    (rotated_name-free (has_file unseen d) s.base_path ts name e))
                (rename fails short s.base_path name d)
                (rename-Renamed fails short s.base_path name d))
      ]

  Rotates-close :
      (s : RotatingFileSink) {fs gs : List File} {out : Bool × RotatingFileSink × Disk}
      → gs ≡ fs
      → Rotates (record s { base = close s.base }) gs out
      → Rotates s fs out
  Rotates-close s {out = out} e r = record {
    shift = λ seen.
        subst (λ hs. Shift s.max_rotated_files s.base_path [] hs out.2.files) e (r.shift seen);
    sink = r.sink;
    path = r.path;
    limit = r.limit;
    ready = r.ready;
    begun = r.begun;
  }

  pub rotate-Rotates :
      (ts : Bytes) (s : RotatingFileSink) (d : Disk)
      → IsSink s
      → Rotates s d.files (rotate fails short unseen ts s d)
  unfolding rotate close
  rotate-Rotates ts s d ok =
      let same = flush_locked-files fails short s.base d in
      let d1 = (flush_locked fails short s.base d).1 in
      elim (Bool-cases (flush_locked fails short s.base d).0) [
        | inl e ↦
            rw e (
              Rotates-close s same
                (move_away-Rotates ts (record s { base = close s.base }) d1 refl))
        | inr e ↦ rw e (record {
          shift = λ seen. Shift-same s.max_rotated_files s.base_path same;
          sink = ok;
          path = refl;
          limit = refl;
          ready = λ x. cc;
          begun = λ x. cc;
        })
      ]
