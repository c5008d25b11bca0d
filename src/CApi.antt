-- ===== src/CApi.antt =====
-- The C interface: logger_c_api/include/sim_logger/c_api.h and logger_c_api/src/c_api.cpp.
-- A `sim_logger_logger_t*` is `none` if it is null, else the number of a handle. `none` as a result:
-- the behaviour is undefined, as a handle is used that was released, or a chain of parents has no
-- end.
mod Tests
pub mod Handles
pub mod Calls
use sim_logger.Prelude.{
  if◌then◌else◌, ◌==◌, ℕ, zero, suc, map, ◌+◌, ◌*◌, Bool, List, [], ◌∷◌, ◌++◌, Option, none, some,
  get_elem?, set, length, take, Bytes,
}
use sim_logger.Level.{Level, debug, info, warn, error, fatal}
use sim_logger.LogRecord.{LogRecord}
use sim_logger.Sink.{SinkPtr, Sinks}
use sim_logger.Logger.{Heap, fetch, effective_sinks, log}
use sim_logger.Registry.{Registry, has_owner, get_logger}
use sim_logger.Time.{Reading, GlobalTime, global_time_source_ref}
use sim_logger.Entry.{text_or_empty, zeros, Process}

-- `handles` are the `sim_logger_logger` objects, each with its `impl`; a deleted one is `none`.
pub record Program (W : Type 0) : Type 0 where
  pub handles : List (Option (Option ℕ))
  pub loggers : List (Bytes × ℕ)
  pub process : Process W

-- The shared pointers in the handles, each given by the cell that it points to.
unfoldable pub pointers : List (Option (Option ℕ)) → List ℕ
pointers [] = []
pointers (some (some j) ∷ hs) = j ∷ pointers hs
pointers (some none ∷ hs) = pointers hs
pointers (none ∷ hs) = pointers hs

-- The loggers when a shared pointer has gone, where `owners` are those that there are still: the
-- logger that it was to is destroyed if it was the last.
unfoldable pub drop_pointer : List ℕ → Option ℕ → Heap → Heap
unfolding has_owner
drop_pointer owners none h = h
drop_pointer owners (some j) h = if has_owner owners j then h else set h j none

-- A value of the C enumeration is its number.
unfoldable pub to_cpp_level : ℕ → Level
to_cpp_level lvl =
    if lvl == 0
    then debug
    else if lvl == 1
    then info
    else if lvl == 2
    then warn
    else if lvl == 3
    then error
    else if lvl == 4
    then fatal
    else info

-- The file's own `vformat_printf`
unfoldable pub vformat_printf :
    {A : Type 0} → (ℕ → Bytes → A → Option ℕ × Bytes) → Option Bytes → A → Bytes
unfolding zeros
vformat_printf vsnprintf none args = []
vformat_printf vsnprintf (some fmt) args = elim ((vsnprintf 0 fmt args).0) [
  | none ↦ []
  | some zero ↦ []
  | some (suc n) ↦ take (suc n) ((vsnprintf (suc n + 1) fmt args).1 ++ zeros (suc n))
]

-- The outcome of `logger == nullptr || !logger->impl`: `returns` if it holds, else the logger that
-- `impl` points to.
pub data Guard : Type 0 where
  returns : Guard
  dangling : Guard
  proceeds : ℕ → Guard

unfoldable pub guard : List (Option (Option ℕ)) → Option ℕ → Guard
guard handles none = returns
guard handles (some i) = elim (get_elem? handles i) [
  | some (some (some j)) ↦ proceeds j
  | some (some none) ↦ returns
  | some none ↦ dangling
  | none ↦ dangling
]

module _ {W : Type 0} where
  -- The registry, whose loggers live in the heap of the process.
  abbrev pub registry : Program W → Registry
  registry s = record { heap = s.process.heap; loggers = s.loggers }

  unfoldable pub sim_logger_get : Option Bytes → Program W → Option (ℕ × Program W)
  unfolding text_or_empty get_logger
  sim_logger_get name s =
      let safe_name = text_or_empty name in
      elim (get_logger (suc (suc (length safe_name))) safe_name (registry s)) [
        | none ↦ none
        | some (logger, r) ↦ some (
          length s.handles,
          record {
            handles = s.handles ++ (some (some logger) ∷ []);
            loggers = r.loggers;
            process = record s.process { heap = r.heap };
          },
        )
      ]

  -- `users` are the shared pointers that the program's C++ code holds.
  unfoldable pub sim_logger_release : List ℕ → Option ℕ → Program W → Option (Program W)
  unfolding pointers drop_pointer
  sim_logger_release users none s = some s
  sim_logger_release users (some i) s = elim (get_elem? s.handles i) [
    | some (some impl) ↦
        let handles = set s.handles i none in
        let owners = map (λ e. e.1) s.loggers ++ (pointers handles ++ users) in
        some (record s {
          handles = handles;
          process = record s.process { heap = drop_pointer owners impl s.process.heap };
        })
    | some none ↦ none
    | none ↦ none
  ]

module _ {D T W : Type 0} (behave : Sinks (LogRecord D T) W) (get_id : ℕ → T)
    (readings : ℕ → Reading D) where
  -- `sim_logger_log` behind its guard.
  unfoldable pub log_through :
      ℕ → ℕ → ℕ → Option Bytes → ℕ → Option Bytes → Option Bytes → Program W → Option (Program W)
  unfolding to_cpp_level fetch global_time_source_ref log text_or_empty
  log_through thread j level file line func msg s = elim (fetch s.process.heap j) [
    | none ↦ none
    | some l ↦
        let (source, time) = global_time_source_ref thread s.process.time in
        let ts = readings source in
        let r : LogRecord D T = record {
          level = to_cpp_level level;
          sim_time = ts.sim_time;
          met = ts.mission_elapsed;
          wall_time_ns = ts.wall_time_ns;
          thread_id = get_id thread;
          file = text_or_empty file;
          line = line;
          function = text_or_empty func;
          logger_name = l.name;
          tags = [];
          message = text_or_empty msg;
        } in
        elim (log behave s.process.heap j l (to_cpp_level level) r s.process.sinks) [
          | none ↦ none
          | some (heap, sinks) ↦
              some (record s { process = record { heap = heap; time = time; sinks = sinks } })
        ]
  ]

  unfoldable pub sim_logger_log :
      ℕ
      → Option ℕ
      → ℕ
      → Option Bytes
      → ℕ
      → Option Bytes
      → Option Bytes
      → Program W
      → Option (Program W)
  unfolding guard log_through
  sim_logger_log thread logger level file line func msg s = elim (guard s.handles logger) [
    | returns ↦ some s
    | dangling ↦ none
    | proceeds j ↦ log_through thread j level file line func msg s
  ]

  module _ {A : Type 0} (vsnprintf : ℕ → Bytes → A → Option ℕ × Bytes) where
    -- `formatted.c_str()` points to the message and the zero behind it.
    unfoldable pub sim_logger_vlogf :
        ℕ
        → Option ℕ
        → ℕ
        → Option Bytes
        → ℕ
        → Option Bytes
        → Option Bytes
        → A
        → Program W
        → Option (Program W)
    unfolding sim_logger_log vformat_printf
    sim_logger_vlogf thread logger level file line func fmt args =
        sim_logger_log thread logger level file line func
          (some (vformat_printf vsnprintf fmt args ++ (0 ∷ [])))

    unfoldable pub sim_logger_logf :
        ℕ
        → Option ℕ
        → ℕ
        → Option Bytes
        → ℕ
        → Option Bytes
        → Option Bytes
        → A
        → Program W
        → Option (Program W)
    unfolding sim_logger_vlogf
    sim_logger_logf thread logger level file line func fmt args =
        sim_logger_vlogf thread logger level file line func fmt args

  -- The loop over the sinks, which swallows what they throw.
  unfoldable pub flush_each : List SinkPtr → W → W
  flush_each [] w = w
  flush_each (s ∷ ss) w = flush_each ss (behave.flush s w).1

  unfoldable pub sim_logger_flush : Option ℕ → Program W → Option (Program W)
  unfolding guard fetch effective_sinks flush_each
  sim_logger_flush logger s = elim (guard s.handles logger) [
    | returns ↦ some s
    | dangling ↦ none
    | proceeds j ↦ elim (fetch s.process.heap j) [
      | none ↦ none
      | some l ↦ elim (effective_sinks s.process.heap l) [
        | none ↦ none
        | some ss ↦
            some (record s { process = record s.process { sinks = flush_each ss s.process.sinks } })
      ]
    ]
  ]
