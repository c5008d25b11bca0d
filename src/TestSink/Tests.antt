-- ===== src/TestSink/Tests.antt =====
-- Records before and after a clear.
use sim_logger.Prelude.{ℕ, List, [], ◌∷◌, ◌++◌, ◌≡◌, length, arith}
use sim_logger.TestSink.{Call, TestSink, writes, flushes, clears, size, snapshot, run}
use sim_logger.TestSink.Snapshot.{written, snapshot-written}

abbrev empty_sink : TestSink ℕ
empty_sink = record { records = [] }

abbrev earlier : List (Call ℕ)
earlier = writes 1 ∷ []

abbrev later : List (Call ℕ)
later = writes 2 ∷ flushes ∷ writes 3 ∷ []

snapshot-written_example :
    (snapshot (run (earlier ++ (clears ∷ later)) empty_sink) ≡ written later)
    × (size (run (earlier ++ (clears ∷ later)) empty_sink) ≡ length (written later))
snapshot-written_example = snapshot-written earlier later empty_sink (omega arith)
