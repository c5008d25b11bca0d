-- ===== src/Pipeline/Tests.antt =====
-- A root logger with two file sinks, on a disk whose first call fails.
use sim_logger.Prelude.{
  ℕ, if◌then◌else◌, ◌==◌, zero, suc, Bool, true, false, [], ◌∷◌, Option, some, ◌≡◌, refl, pos,
  Bytes, codes, bytes_eq,
}
use sim_logger.Level.{warn, info, is_at_least}
use sim_logger.LogRecord.{LogRecord}
use sim_logger.Logger.{Logger, Heap, new_logger, add_sink, fetch, lock, modify, log}
use sim_logger.Logger.Effective.{
  IsHierarchy, DecidesLevel, DecidesSinks, DecidesFlush, overridden, topmost,
}
use sim_logger.Formatter.{Printed, format, format_from, append_token, until_close}
use sim_logger.FileSink.{format_record}
use sim_logger.Pipeline.{Files, file_sinks}
use sim_logger.Pipeline.Lines.{IsReady, Appends, log-Appends}

abbrev root : Logger
root = add_sink 4 (add_sink 3 (new_logger (codes "root")))

abbrev heap : Heap
heap = some root ∷ []

heap-IsHierarchy : IsHierarchy heap
unfolding fetch add_sink new_logger
heap-IsHierarchy zero p l e up = cc
heap-IsHierarchy (suc i) p l e up = cc

root_here : fetch heap 0 ≡ some root
unfolding fetch
root_here = refl

root_level : DecidesLevel heap root info
unfolding add_sink new_logger lock
root_level = topmost refl refl

root_sinks : DecidesSinks heap root (3 ∷ 4 ∷ [])
unfolding add_sink new_logger
root_sinks = overridden refl

root_flush : DecidesFlush heap root false
unfolding add_sink new_logger lock
root_flush = topmost refl refl

abbrev names : ℕ → Bytes
names k = if k == 3 then codes "a.log" else codes "b.log"

abbrev files : Files
files = record {
  sink = λ k. record {
    path = names k;
    formatter = record { pattern = codes "{msg}"; tokens = codes "msg" ∷ [] };
    durable_flush = false;
    file = some (names k);
    bytes_written = 0;
  };
  disk = record { files = []; calls = 0 };
}

abbrev first_fails : ℕ → Bool
first_fails i = i == 0

abbrev nothing_short : ℕ → ℕ
nothing_short i = 0

abbrev prints : ℕ → Option Printed
prints x = some (record { text = codes "0"; behind = [] })

abbrev hashes : ℕ → ℕ
hashes x = x

abbrev sample : LogRecord ℕ ℕ
sample = record {
  level = warn;
  sim_time = 1;
  met = 2;
  wall_time_ns = pos 3;
  thread_id = 4;
  file = codes "a.cpp";
  line = 5;
  function = codes "f";
  logger_name = codes "root";
  tags = [];
  message = codes "hot";
}

files-IsReady : IsReady prints hashes sample files
unfolding format_record format format_from append_token until_close bytes_eq
files-IsReady = record {
  name = names;
  line = λ k. codes "hot";
  stream = λ k. refl;
  shown = λ k. refl;
}

log-Appends_example :
    (is_at_least warn info ≡ false
      → log (file_sinks prints hashes first_fails nothing_short) heap 0 root warn sample files
        ≡ some (heap, files))
    × (is_at_least warn info ≡ true
        → (out : Files × ℕ) × (log
              (file_sinks prints hashes first_fails nothing_short)
              heap
              0
              root
              warn
              sample
              files
            ≡ some (modify heap 0 (λ l. record l { sink_failures_count = out.1 }), out.0))
          × Appends files-IsReady.name files-IsReady.line
              (3 ∷ 4 ∷ [])
              files
              root.sink_failures_count
              out)
log-Appends_example =
    log-Appends prints hashes first_fails nothing_short heap 0 root info (3 ∷ 4 ∷ []) warn sample
      files files-IsReady heap-IsHierarchy root_here root_level root_sinks root_flush
