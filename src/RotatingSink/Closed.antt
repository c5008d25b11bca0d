-- ===== src/RotatingSink/Closed.antt =====
-- A sink whose stream is gone stays as it is.
use sim_logger.Prelude.{
  ℕ, Bool, true, false, List, [], ◌∷◌, none, ◌≡◌, refl, inl, inr, Bool-cases, Option-cases, leb,
  length, replicate, Bytes,
}
use sim_logger.Disk.{Disk, has_file, rename}
use sim_logger.FileSink.{FileSink, close, flush_locked, reopen, write_line}
use sim_logger.Rotation.{rotated_name}
use sim_logger.RotatingSink.{
  RotatingFileSink, projected, resume, move_away, rotate, append, write_formatted,
}
use sim_logger.RotatingSink.Shift.{Opened, opened, not_opened, reopen-Opened}
use sim_logger.RotatingSink.Log.{Line, write_lines}

module _ (fails : ℕ → Bool) (short : ℕ → ℕ) (unseen : ℕ → Bytes → Bool) where
  closed_flush :
      (s : FileSink) (d : Disk) → s.file ≡ none → flush_locked fails short s d ≡ (false, d)
  unfolding flush_locked
  closed_flush s d e = rw (e, flush_locked)

  closed_line :
      (line : Bytes) (s : FileSink) (d : Disk)
      → s.file ≡ none
      → write_line fails short line s d ≡ (false, s, d)
  unfolding write_line
  closed_line line s d e = rw (e, write_line)

  closed_rotate :
      (ts : Bytes) (s : RotatingFileSink) (d : Disk)
      → s.base.file ≡ none
      → rotate fails short unseen ts s d ≡ (false, s, d)
  unfolding rotate
  closed_rotate ts s d e = rw (closed_flush s.base d e, rotate)

  closed_append :
      (line : Bytes) (s : RotatingFileSink) (d : Disk)
      → s.base.file ≡ none
      → append fails short line s d ≡ (false, s, d)
  unfolding append
  closed_append line s d e = rw (closed_line line s.base d e, append)

  closed_write :
      (ts line : Bytes) (s : RotatingFileSink) (d : Disk)
      → s.base.file ≡ none
      → write_formatted fails short unseen ts line s d ≡ (false, s, d)
  unfolding write_formatted
  closed_write ts line s d e = elim (Bool-cases (leb s.max_bytes (projected s line))) [
    | inl x ↦ rw (x, closed_rotate ts s d e)
    | inr x ↦ rw (x, closed_append line s d e)
  ]

  closed_writes :
      (ls : List Line) (s : RotatingFileSink) (d : Disk)
      → s.base.file ≡ none
      → write_lines fails short unseen ls s d ≡ (replicate (length ls) false, s, d)
  unfolding write_lines
  closed_writes [] s d e = refl
  closed_writes (l ∷ ls) s d e = rw (closed_write l.time l.text s d e) (rw (closed_writes ls s d e))

  resume_closed :
      (s : RotatingFileSink) (d : Disk) (o : Bool × FileSink × Disk)
      → reopen fails short s.base_path s.base d ≡ o
      → Opened s.base_path d o
      → (resume fails short s d).0 ≡ false
      → (resume fails short s d).1.base.file ≡ none
  unfolding resume
  resume_closed s d (true, f, d1) e (opened on files sized) lost = cc (rw e at lost)
  resume_closed s d (false, f, d1) e (not_opened closed files) lost = rw e closed

  move_away_closed :
      (ts : Bytes) (s : RotatingFileSink) (d : Disk)
      → s.base.file ≡ none
      → (move_away fails short unseen ts s d).0 ≡ false
      → (move_away fails short unseen ts s d).1.base.file ≡ none
  unfolding move_away
  move_away_closed ts s d closed lost =
      elim (Option-cases (rotated_name (has_file unseen d) s.base_path ts)) [
        | inl e ↦ rw (e, move_away) closed
        | inr (name, e) ↦ elim (Bool-cases (rename fails short s.base_path name d).0) [
          | inr x ↦ rw (e, move_away, x) closed
          | inl x ↦
              let d1 = (rename fails short s.base_path name d).1 in
              rw (e, move_away, x)
                (resume_closed s d1 (reopen fails short s.base_path s.base d1) refl
                  (reopen-Opened fails short s.base_path s.base d1) (rw (e, move_away, x) at lost))
        ]
      ]

  -- A rotation that throws after its flush has gone through, because there is no free name, or the
  -- rename or the opening of the new file fails, leaves the sink without a stream. Then every later
  -- write throws, at whatever time, and changes neither the sink nor a file: nothing opens the file
  -- again.
  pub failed_rotation_is_final :
      (ts : Bytes) (ls : List Line) (s : RotatingFileSink) (d : Disk)
      → (flush_locked fails short s.base d).0 ≡ true
      → (rotate fails short unseen ts s d).0 ≡ false
      → let (lost, s1, d1) = rotate fails short unseen ts s d in
        write_lines fails short unseen ls s1 d1 ≡ (replicate (length ls) false, s1, d1)
  unfolding rotate close
  failed_rotation_is_final ts ls s d flushed lost =
      closed_writes ls (rotate fails short unseen ts s d).1 (rotate fails short unseen ts s d).2 (
        rw flushed (
          move_away_closed ts (record s { base = close s.base })
            (flush_locked fails short s.base d).1 refl (rw flushed at lost)))
