-- ===== src/Pipeline.antt =====
-- Loggers in front of file sinks: the calls of ISink by logger_core/src/logger.cpp, as FileSink of
-- logger_core/include/logger/file_sink.hpp answers them.
mod Tests
pub mod Lines
use sim_logger.Prelude.{ℕ, Bool, true, false, not, ◌==◌, if◌then◌else◌, Option, Bytes}
use sim_logger.Formatter.{Printed}
use sim_logger.LogRecord.{LogRecord}
use sim_logger.Sink.{SinkPtr, Sinks}
use sim_logger.Disk.{Disk}
use sim_logger.FileSink.{FileSink, flush_locked, write}

-- The file sinks that pointers lead to, and the directory that they share.
pub record Files : Type 0 where
  pub sink : SinkPtr → FileSink
  pub disk : Disk

-- A call on sink `k` has left that sink as `f` and the directory as `d`.
unfoldable pub store : SinkPtr → FileSink → Disk → Files → Files
store k f d w = record { sink = λ j. if j == k then f else w.sink j; disk = d }

module _ {D T : Type 0} (snprintf : D → Option Printed) (hash : T → ℕ) (fails : ℕ → Bool)
    (short : ℕ → ℕ) where
  -- The two operations of the interface, which throw where those of FileSink do.
  abbrev pub file_sinks : Sinks (LogRecord D T) Files
  file_sinks = record {
    write = λ k r w.
        let (fine, f, d) = write snprintf hash fails short r (w.sink k) w.disk in
        (not fine, store k f d w);
    flush = λ k w.
        let (fine, d) = flush_locked fails short (w.sink k) w.disk in
        (not fine, store k (w.sink k) d w);
  }
