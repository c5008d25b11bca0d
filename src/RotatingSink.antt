-- ===== src/RotatingSink.antt =====
-- The rotating file sink: logger_core/include/logger/rotating_file_sink.hpp and
-- logger_core/src/rotating_file_sink.cpp. A Boolean result is `false` where the code throws. The
-- clock is an argument: the text that `make_timestamp_utc` returns.
mod Tests
pub mod Shift
pub mod Rotate
pub mod Kept
pub mod Archives
pub mod Log
pub mod Closed
pub mod Bounded
use sim_logger.Prelude.{
  ℕ, ◌+◌, ◌%◌, ◌^◌, Bool, true, false, List, [], ◌∷◌, Option, none, some, leb, ◌==◌, ◌||◌,
  if◌then◌else◌, length, Bytes, bytes_eq,
}
use sim_logger.LogRecord.{LogRecord}
use sim_logger.Formatter.{Printed, PatternFormatter}
use sim_logger.Disk.{Disk, has_file, rename}
use sim_logger.FileSink.{
  FileSink, ends_line, add_u64, close, write_line, flush_locked, reopen, format_record,
}
use sim_logger.FileSink
use sim_logger.Rotation.{rotated_name}
use sim_logger.Prune.{prune}

pub record RotatingFileSink : Type 0 where
  pub base : FileSink
  pub base_path : Bytes
  pub max_bytes : ℕ
  pub rotations_performed : ℕ
  pub max_rotated_files : ℕ

-- The size that the file would have with the line.
unfoldable pub projected : RotatingFileSink → Bytes → ℕ
unfolding ends_line
projected s line =
    add_u64 (add_u64 s.base.bytes_written (length line)) (if ends_line line then 0 else 1)

module _ (fails : ℕ → Bool) (short : ℕ → ℕ) where
  -- The constructor; `none`: it throws.
  unfoldable pub create :
      Bytes → PatternFormatter → ℕ → Bool → ℕ → Disk → Option RotatingFileSink × Disk
  create path formatter max_bytes durable_flush max_rotated_files d =
      let (made, d1) = FileSink.create fails short path formatter durable_flush d in
      elim made [
        | none ↦ (none, d1)
        | some s ↦ if bytes_eq path [] || max_bytes == 0 then (none, d1) else (
          some (record {
            base = s;
            base_path = path;
            max_bytes = max_bytes;
            rotations_performed = 0;
            max_rotated_files = max_rotated_files;
          }),
          d1,
        )
      ]

  -- `rotate_locked` behind the rename
  unfoldable pub resume : RotatingFileSink → Disk → Bool × RotatingFileSink × Disk
  unfolding prune
  resume s d =
      let (opened, f, d1) = reopen fails short s.base_path s.base d in
      let opened_sink = record s { base = f } in
      if opened
      then (
        true,
        record opened_sink { rotations_performed = add_u64 s.rotations_performed 1 },
        prune fails short s.max_rotated_files s.base_path d1,
      )
      else (false, opened_sink, d1)

  -- `write` of a formatted line, behind the rotation
  unfoldable pub append : Bytes → RotatingFileSink → Disk → Bool × RotatingFileSink × Disk
  append line s d =
      let (written, f, d1) = write_line fails short line s.base d in
      (written, record s { base = f }, d1)

  -- `unseen` tells which tests for the existence of a file fail.
  module _ (unseen : ℕ → Bytes → Bool) where
    -- `rotate_locked` behind the close
    unfoldable pub move_away : Bytes → RotatingFileSink → Disk → Bool × RotatingFileSink × Disk
    unfolding resume
    move_away ts s d = elim (rotated_name (has_file unseen d) s.base_path ts) [
      | none ↦ (false, s, d)
      | some name ↦
          let (renamed, d1) = rename fails short s.base_path name d in
          if renamed then resume s d1 else (false, s, d1)
    ]

    unfoldable pub rotate : Bytes → RotatingFileSink → Disk → Bool × RotatingFileSink × Disk
    unfolding move_away
    rotate ts s d =
        let (flushed, d1) = flush_locked fails short s.base d in
        if flushed then move_away ts (record s { base = close s.base }) d1 else (false, s, d1)

    unfoldable pub write_formatted :
        Bytes → Bytes → RotatingFileSink → Disk → Bool × RotatingFileSink × Disk
    unfolding projected rotate append
    write_formatted ts line s d =
        if leb s.max_bytes (projected s line)
        then (let (rotated, s1, d1) = rotate ts s d in
            if rotated then append line s1 d1 else (false, s1, d1))
        else append line s d

module _ {D T : Type 0} (snprintf : D → Option Printed) (hash : T → ℕ) where
  unfoldable pub write :
      (ℕ → Bool)
      → (ℕ → ℕ)
      → (ℕ → Bytes → Bool)
      → Bytes
      → LogRecord D T
      → RotatingFileSink
      → Disk
      → Bool × RotatingFileSink × Disk
  unfolding write_formatted
  write fails short unseen ts r s d = elim (format_record snprintf hash s.base.formatter r) [
    | none ↦ (false, s, d)
    | some line ↦ write_formatted fails short unseen ts line s d
  ]
