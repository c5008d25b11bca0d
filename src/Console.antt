-- ===== src/Console.antt =====
-- The console sink: logger_core/include/logger/console_sink.hpp and
-- logger_core/src/console_sink.cpp. A stream is the file that it writes to, `none` if it is null; a
-- Boolean result is `false` where the code throws. What isatty answers is an argument.
mod Tests
pub mod Shown
use sim_logger.Prelude.{
  ℕ, Bool, true, false, List, [], ◌∷◌, ◌++◌, Option, none, some, not, if◌then◌else◌, Bytes, codes,
}
use sim_logger.Level.{Level, debug, info, warn, error, fatal}
use sim_logger.LogRecord.{LogRecord}
use sim_logger.Formatter.{Printed, PatternFormatter}
use sim_logger.Disk.{Disk, fwrite, fflush}
use sim_logger.FileSink.{ends_line, format_record}

pub data ColorMode : Type 0 where
  auto always never : ColorMode

pub record ConsoleSink : Type 0 where
  pub formatter : PatternFormatter
  pub color_mode : ColorMode
  pub stream : Option Bytes

-- kAnsiReset
abbrev pub ansi_reset : Bytes
ansi_reset = 27 ∷ codes "[0m"

-- The constructor; `none`: it throws.
unfoldable pub create : PatternFormatter → ColorMode → Option Bytes → Option ConsoleSink
create formatter color_mode none = none
create formatter color_mode (some n) =
    some (record { formatter = formatter; color_mode = color_mode; stream = some n })

-- `is_tty`, where `isatty` tells the streams of a terminal.
unfoldable pub is_tty : (Bytes → Bool) → Option Bytes → Bool
is_tty isatty none = false
is_tty isatty (some n) = isatty n

unfoldable pub should_colorize : (Bytes → Bool) → ConsoleSink → Bool
unfolding is_tty
should_colorize isatty s = elim s.color_mode [
  | always ↦ true
  | never ↦ false
  | auto ↦ is_tty isatty s.stream
]

unfoldable pub ansi_prefix_for : Level → Option Bytes
ansi_prefix_for warn = some (27 ∷ codes "[33m")
ansi_prefix_for error = some (27 ∷ codes "[31m")
ansi_prefix_for fatal = some (27 ∷ codes "[31m")
ansi_prefix_for debug = some (27 ∷ codes "[90m")
ansi_prefix_for info = none

-- A statement that may throw, and two of them in a row.
abbrev pub Statement : Type 0
Statement = Disk → Bool × Disk

unfoldable pub skip : Statement
skip d = (true, d)

unfoldable pub and_then : Statement → Statement → Statement
and_then f g d = let (fine, d1) = f d in if fine then g d1 else (false, d1)

module _ (fails : ℕ → Bool) (short : ℕ → ℕ) where
  unfoldable pub write_all_or_throw : Option Bytes → Bytes → Statement
  write_all_or_throw none text d = (false, d)
  write_all_or_throw (some n) text d = fwrite fails short n text d

  -- `write` behind the formatter, whose text is `line`.
  unfoldable pub write_formatted : Bool → Level → Bytes → ConsoleSink → Statement
  unfolding write_all_or_throw ansi_prefix_for and_then skip ends_line
  write_formatted colorize level line s =
      and_then
        (if colorize
          then (elim (ansi_prefix_for level) [
            | some prefix ↦ write_all_or_throw s.stream prefix
            | none ↦ skip
          ])
          else skip)
        (and_then (write_all_or_throw s.stream line) (
          and_then (if ends_line line then skip else write_all_or_throw s.stream (10 ∷ []))
            (if colorize then write_all_or_throw s.stream ansi_reset else skip)))

  unfoldable pub flush : ConsoleSink → Statement
  flush s d = elim s.stream [ some n ↦ fflush fails short d | none ↦ (true, d) ]

  module _ {D T : Type 0} (snprintf : D → Option Printed) (hash : T → ℕ) where
    unfoldable pub write : (Bytes → Bool) → LogRecord D T → ConsoleSink → Statement
    unfolding format_record write_formatted should_colorize
    write isatty r s d = elim (format_record snprintf hash s.formatter r) [
      | none ↦ (false, d)
      | some line ↦ write_formatted (should_colorize isatty s) r.level line s d
    ]
