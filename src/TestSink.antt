-- ===== src/TestSink.antt =====
-- The recording sink for tests: logger_core/include/logger/test_sink.hpp and
-- logger_core/src/test_sink.cpp. Each method runs under the mutex.
mod Tests
pub mod Snapshot
use sim_logger.Prelude.{ℕ, List, [], ◌∷◌, ◌++◌, length}

pub record TestSink (R : Type 0) : Type 0 where
  pub records : List R

-- The methods
pub data Call (R : Type 0) : Type 0 where
  writes : R → Call R
  flushes clears : Call R

module _ {R : Type 0} where
  unfoldable pub write : R → TestSink R → TestSink R
  write r s = record s { records = s.records ++ (r ∷ []) }

  unfoldable pub flush : TestSink R → TestSink R
  flush s = s

  unfoldable pub size : TestSink R → ℕ
  size s = length s.records

  unfoldable pub snapshot : TestSink R → List R
  snapshot s = s.records

  unfoldable pub clear : TestSink R → TestSink R
  clear s = record s { records = [] }

  -- The calls that change the sink, in the order in which threads get its mutex.
  unfoldable pub run : List (Call R) → TestSink R → TestSink R
  unfolding write flush clear
  run [] s = s
  run (writes r ∷ cs) s = run cs (write r s)
  run (flushes ∷ cs) s = run cs (flush s)
  run (clears ∷ cs) s = run cs (clear s)
