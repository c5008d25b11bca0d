-- ===== src/RotatingSink/Kept.antt =====
-- What one write leaves of the files, whatever calls of the system fail.
use sim_logger.Prelude.{
  ℕ, Bool, true, false, List, [], ◌++◌, none, ◌≡◌, inl, inr, refl, sym, ap, ◌∙◌, subst, Bool-cases,
  Bytes, leb,
}
use sim_logger.Disk.{Disk, File}
use sim_logger.FileSink.{FileSink, write_line}
use sim_logger.FileSink.Append.{full_line, write_line-LineWritten}
use sim_logger.RotatingSink.{RotatingFileSink, projected, rotate, append, write_formatted}
use sim_logger.RotatingSink.Shift.{Shift, Shift-same, Shift-append}
use sim_logger.RotatingSink.Rotate.{AllSeen, IsSink, rotate-Rotates}

module _ (fails : ℕ → Bool) (short : ℕ → ℕ) (unseen : ℕ → Bytes → Bool) where
  -- What a write leaves: a part of the line from its start was added, the whole if the call returns.
  pub record Written (s : RotatingFileSink) (line : Bytes) (fs : List File)
      (out : Bool × RotatingFileSink × Disk) : Type 0 where
    pub added : Bytes
    pub missing : Bytes
    pub split : added ++ missing ≡ full_line line
    pub complete : out.0 ≡ true → missing ≡ []
    pub shift : Shift s.max_rotated_files s.base_path added fs out.2.files
    pub sink : IsSink out.1
    pub path : out.1.base_path ≡ s.base_path
    pub limit : out.1.max_rotated_files ≡ s.max_rotated_files

  nothing-Written :
      (s s' : RotatingFileSink) (line : Bytes) (fs : List File) (d : Disk)
      → IsSink s'
      → s'.base_path ≡ s.base_path
      → s'.max_rotated_files ≡ s.max_rotated_files
      → Shift s.max_rotated_files s.base_path [] fs d.files
      → Written s line fs (false, s', d)
  nothing-Written s s' line fs d ok same kept sh = record {
    added = [];
    missing = full_line line;
    split = refl;
    complete = λ e. cc;
    shift = sh;
    sink = ok;
    path = same;
    limit = kept;
  }

  closed_write :
      (line : Bytes) (s : FileSink) (d : Disk)
      → s.file ≡ none
      → write_line fails short line s d ≡ (false, s, d)
  unfolding write_line
  closed_write line s d e = rw (e, write_line)

  append-Written :
      (s s' : RotatingFileSink) (line : Bytes) (fs : List File) (d : Disk)
      → IsSink s'
      → s'.base_path ≡ s.base_path
      → s'.max_rotated_files ≡ s.max_rotated_files
      → Shift s.max_rotated_files s.base_path [] fs d.files
      → Written s line fs (append fails short line s' d)
  unfolding append
  append-Written s s' line fs d ok same kept sh = elim ok.stream [
    | inr closed ↦
        rw (closed_write line s'.base d closed) (nothing-Written s s' line fs d ok same kept sh)
    | inl open_on ↦
        let w = write_line-LineWritten fails short s'.base_path line s'.base d open_on in
        record {
          added = w.appended.added;
          missing = w.appended.missing;
          split = w.appended.split;
          complete = w.appended.complete;
          shift =
              subst
                (λ k.
                  Shift k s.base_path w.appended.added fs (append fails short line s' d).2.files)
                kept
                (subst
                  (λ p.
                    Shift s'.max_rotated_files p w.appended.added fs
                      (append fails short line s' d).2.files)
                  same
                  (Shift-append
                    (subst (λ k. Shift k s'.base_path [] fs d.files) (sym kept)
                      (subst (λ p. Shift s.max_rotated_files p [] fs d.files) (sym same) sh))
                    w.appended));
          sink = record { stream = inl (ap (λ f. f.file) w.same ∙ open_on) };
          path = same;
          limit = kept;
        }
  ]

  -- What a write leaves, whatever calls of the system fail.
  pub write_formatted-Written :
      (ts line : Bytes) (s : RotatingFileSink) (d : Disk)
      → AllSeen fails short unseen
      → IsSink s
      → Written s line d.files (write_formatted fails short unseen ts line s d)
  unfolding write_formatted
  write_formatted-Written ts line s d seen ok =
      elim (Bool-cases (leb s.max_bytes (projected s line))) [
        | inr small ↦ rw small (
            append-Written s s line d.files d ok refl refl
              (Shift-same s.max_rotated_files s.base_path refl))
        | inl large ↦
            let r = rotate-Rotates fails short unseen ts s d ok in
            let s1 = (rotate fails short unseen ts s d).1 in
            let d1 = (rotate fails short unseen ts s d).2 in
            elim (Bool-cases (rotate fails short unseen ts s d).0) [
              | inl e ↦
                  rw (large, e)
                    (append-Written s s1 line d.files d1 r.sink r.path r.limit (r.shift seen))
              | inr e ↦
                  rw (large, e)
                    (nothing-Written s s1 line d.files d1 r.sink r.path r.limit (r.shift seen))
            ]
      ]
