-- ===== src/Sink.antt =====
-- The sink interface, logger_core/include/logger/sink.hpp, as the loggers see it: sinks are shared
-- objects of which a caller holds pointers, and a call may throw.
use sim_logger.Prelude.{ℕ, Bool}

-- `shared_ptr<ISink>`: which sink object it points to.
abbrev pub SinkPtr : Type 0
SinkPtr = ℕ

-- How the sinks of a program behave, over the state `W` of all of them: a call returns whether it
-- threw, and the state that it leaves, also when it throws.
pub record Sinks (R W : Type 0) : Type 0 where
  pub write : SinkPtr → R → W → Bool × W
  pub flush : SinkPtr → W → Bool × W
