-- ===== src/FileSink.antt =====
-- The file sink: logger_core/include/logger/file_sink.hpp and logger_core/src/file_sink.cpp.
-- Each function runs under the sink's mutex. A Boolean result is `false` where the code throws; the
-- state that comes with it is the one that the exception leaves.
mod Tests
pub mod Append
use sim_logger.Prelude.{
  ℕ, zero, suc, ◌+◌, ◌%◌, ◌^◌, Bool, true, false, List, [], ◌∷◌, Option, none, some, ◌==◌,
  if◌then◌else◌, length, Bytes, bytes_eq,
}
use sim_logger.LogRecord.{LogRecord}
use sim_logger.Formatter.{Printed, PatternFormatter, Result, ok, runtime_error, format}
use sim_logger.Disk.{Disk, fopen, file_size_or_zero, fwrite, fflush}

-- `file` is the file of the open stream `file_`, `none` for a null pointer.
pub record FileSink : Type 0 where
  pub path : Bytes
  pub formatter : PatternFormatter
  pub durable_flush : Bool
  pub file : Option Bytes
  pub bytes_written : ℕ

abbrev pub add_u64 : ℕ → ℕ → ℕ
add_u64 a b = (a + b) % 2 ^ 64

-- `!line.empty() && line.back() == '\n'`
unfoldable pub ends_line : Bytes → Bool
ends_line [] = false
ends_line (c ∷ []) = c == 10
ends_line (c ∷ d ∷ s) = ends_line (d ∷ s)

-- `close_locked_noexcept`
unfoldable pub close : FileSink → FileSink
close s = record s { file = none; bytes_written = 0 }

module _ (fails : ℕ → Bool) (short : ℕ → ℕ) where
  unfoldable pub write_all_or_throw : Option Bytes → Bytes → Disk → Bool × Disk
  write_all_or_throw none text d = (false, d)
  write_all_or_throw (some n) text d = fwrite fails short n text d

  unfoldable pub write_line : Bytes → FileSink → Disk → Bool × FileSink × Disk
  unfolding write_all_or_throw ends_line
  write_line line s d =
      let (whole, d1) = write_all_or_throw s.file line d in
      let counted = record s { bytes_written = add_u64 s.bytes_written (length line) } in
      if whole
      then (if ends_line line
          then (true, counted, d1)
          else let (ended, d2) = write_all_or_throw s.file (10 ∷ []) d1 in
            if ended
            then (true, record counted { bytes_written = add_u64 counted.bytes_written 1 }, d2)
            else (false, counted, d2))
      else (false, s, d1)

  unfoldable pub flush_locked : FileSink → Disk → Bool × Disk
  flush_locked s d = elim s.file [
    | none ↦ (false, d)
    | some n ↦
        let (flushed, d1) = fflush fails short d in
        if flushed
        then (if s.durable_flush then fflush fails short d1 else (true, d1))
        else (false, d1)
  ]

  unfoldable pub open_locked : FileSink → Disk → Bool × FileSink × Disk
  open_locked s d =
      let (opened, d1) = fopen fails short s.path d in
      let (size, d2) = file_size_or_zero fails short s.path d1 in
      if opened
      then (true, record s { file = some s.path; bytes_written = size }, d2)
      else (false, record s { file = none }, d1)

  unfoldable pub reopen : Bytes → FileSink → Disk → Bool × FileSink × Disk
  unfolding close open_locked
  reopen new_path s d = open_locked (record (close s) { path = new_path }) d

  -- The constructor; `none`: it throws.
  unfoldable pub create : Bytes → PatternFormatter → Bool → Disk → Option FileSink × Disk
  unfolding open_locked bytes_eq
  create path formatter durable_flush d =
      if bytes_eq path []
      then (none, d)
      else let (opened, s, d1) =
          open_locked
            (record {
              path = path;
              formatter = formatter;
              durable_flush = durable_flush;
              file = none;
              bytes_written = 0;
            })
            d in
        (if opened then some s else none, d1)

module _ {D T : Type 0} (snprintf : D → Option Printed) (hash : T → ℕ) where
  -- `none`: the formatter threw.
  unfoldable pub format_record : PatternFormatter → LogRecord D T → Option Bytes
  unfolding format
  format_record formatter r = elim (format snprintf hash r formatter.pattern) [
    | some (ok line) ↦ some line
    | some runtime_error ↦ none
    | none ↦ none
  ]

  unfoldable pub write :
      (ℕ → Bool) → (ℕ → ℕ) → LogRecord D T → FileSink → Disk → Bool × FileSink × Disk
  unfolding format_record write_line
  write fails short r s d = elim (format_record s.formatter r) [
    | none ↦ (false, s, d)
    | some line ↦ write_line fails short line s d
  ]
