-- ===== src/LogRecord.antt =====
-- Log records: logger_core/include/logger/log_record.hpp. A `double` is a value of a type `D` that
-- the program only passes on, a thread id one of a type `T`.
use sim_logger.Prelude.{ℕ, List, ℤ, Bytes}
use sim_logger.Level.{Level}

pub record Tag : Type 0 where
  pub key : Bytes
  pub value : Bytes

-- `wall_time_ns` is an `int64_t`, `line` a `uint32_t`.
pub record LogRecord (D T : Type 0) : Type 0 where
  pub level : Level
  pub sim_time : D
  pub met : D
  pub wall_time_ns : ℤ
  pub thread_id : T
  pub file : Bytes
  pub line : ℕ
  pub function : Bytes
  pub logger_name : Bytes
  pub tags : List Tag
  pub message : Bytes
