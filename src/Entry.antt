-- ===== src/Entry.antt =====
-- The functions behind the logging macros: namespace detail of
-- logger_core/include/logger/log_macros.hpp. A `const char*` is `none` if it is null, else the bytes
-- from the pointer on. vsnprintf is a parameter, as are the readings of the time sources.
mod Tests
pub mod Printf
pub mod Deliver
use sim_logger.Prelude.{
  ℕ, zero, suc, ◌+◌, List, [], ◌∷◌, ◌++◌, Option, none, some, ◌==◌, if◌then◌else◌, take, Bytes,
}
use sim_logger.Level.{Level}
use sim_logger.LogRecord.{LogRecord}
use sim_logger.Sink.{Sinks}
use sim_logger.Logger.{Heap, fetch, log}
use sim_logger.Time.{Reading, GlobalTime, global_time_source_ref}

-- `std::string(p)`: the bytes before the first zero.
unfoldable pub until_nul : Bytes → Bytes
until_nul [] = []
until_nul (c ∷ s) = let rest = until_nul s in if c == 0 then [] else c ∷ rest

-- `p ? p : ""`, as a string
unfoldable pub text_or_empty : Option Bytes → Bytes
unfolding until_nul
text_or_empty none = []
text_or_empty (some s) = until_nul s

-- `LoggerLike`: a reference, or a shared pointer, which may be null.
pub data LoggerLike : Type 0 where
  reference : ℕ → LoggerLike
  shared : Option ℕ → LoggerLike

-- The logger's cell; `none`: a null pointer is dereferenced.
unfoldable pub as_logger : LoggerLike → Option ℕ
as_logger (reference i) = some i
as_logger (shared p) = p

-- `out.resize(n)`
unfoldable pub zeros : ℕ → Bytes
zeros zero = []
zeros (suc n) = 0 ∷ zeros n

-- `vsnprintf` of a buffer's size, a format and its arguments: the value returned, `none` if it is
-- negative, and the characters stored before the closing zero.
unfoldable pub vformat_printf :
    {A : Type 0} → (ℕ → Bytes → A → Option ℕ × Bytes) → Option Bytes → A → Bytes
unfolding zeros
vformat_printf vsnprintf none args = []
vformat_printf vsnprintf (some fmt) args = elim ((vsnprintf 0 fmt args).0) [
  | none ↦ []
  | some zero ↦ []
  | some (suc n) ↦ take (suc n) ((vsnprintf (suc n + 1) fmt args).1 ++ zeros (suc n))
]

-- The state that a call reads and changes; `sinks` is that of all sinks.
pub record Process (W : Type 0) : Type 0 where
  pub heap : Heap
  pub time : GlobalTime
  pub sinks : W

module _ {D T W : Type 0} (behave : Sinks (LogRecord D T) W) (get_id : ℕ → T)
    (readings : ℕ → Reading D) where
  -- Called by a thread; `none`: the logger is a null pointer, or its chain of parents has no end.
  unfoldable pub log_string :
      ℕ
      → LoggerLike
      → Level
      → Option Bytes
      → ℕ
      → Option Bytes
      → Bytes
      → Process W
      → Option (Process W)
  unfolding as_logger fetch global_time_source_ref log text_or_empty
  log_string thread logger_like level file line function message p = elim (as_logger logger_like) [
    | none ↦ none
    | some i ↦ elim (fetch p.heap i) [
      | none ↦ none
      | some l ↦
          let (source, time) = global_time_source_ref thread p.time in
          let ts = readings source in
          let r : LogRecord D T = record {
            level = level;
            sim_time = ts.sim_time;
            met = ts.mission_elapsed;
            wall_time_ns = ts.wall_time_ns;
            thread_id = get_id thread;
            file = text_or_empty file;
            line = line;
            function = text_or_empty function;
            logger_name = l.name;
            tags = [];
            message = message;
          } in
          elim (log behave p.heap i l level r p.sinks) [
            | none ↦ none
            | some (heap, sinks) ↦ some (record { heap = heap; time = time; sinks = sinks })
          ]
    ]
  ]

  unfoldable pub log_printf :
      {A : Type 0}
      → (ℕ → Bytes → A → Option ℕ × Bytes)
      → ℕ
      → LoggerLike
      → Level
      → Option Bytes
      → ℕ
      → Option Bytes
      → Option Bytes
      → A
      → Process W
      → Option (Process W)
  unfolding log_string vformat_printf
  log_printf vsnprintf thread logger_like level file line function fmt args p =
      log_string thread logger_like level file line function (vformat_printf vsnprintf fmt args) p
