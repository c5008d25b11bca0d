-- ===== src/CApi/Tests.antt =====
-- A program with one logger, "root", with one sink, and one handle to it.
use sim_logger.Prelude.{
  ℕ, ◌-◌, zero, suc, Bool, false, List, [], ◌∷◌, ◌++◌, map, Option, some, none, ◌≡◌, refl, pos,
  take, length, Bytes, codes,
}
use sim_logger.LogRecord.{LogRecord}
use sim_logger.Logger.{Logger, new_logger, add_sink, fetch}
use sim_logger.Logger.Effective.{IsHierarchy, DecidesSinks, overridden}
use sim_logger.Logger.Emit.{SinkEvent, flushed, recording}
use sim_logger.Registry.{find}
use sim_logger.Registry.Insert.{IsValid}
use sim_logger.Time.{Reading}
use sim_logger.Entry.{text_or_empty}
use sim_logger.CApi.{
  Program, guard, proceeds, registry, sim_logger_get, sim_logger_release, sim_logger_flush,
}
use sim_logger.CApi.Calls.{sim_logger_flush-flushed}
use sim_logger.CApi.Handles.{Acquired, Released, get_and_release}

abbrev State : Type 0
State = Program (List (SinkEvent (LogRecord ℕ ℕ)))

abbrev root : Logger
root = add_sink 3 (new_logger (codes "root"))

abbrev empty_program : State
empty_program = record {
  handles = [];
  loggers = [];
  process = record {
    heap = [];
    time = record { installed = none; fallback = 0; snapshots = λ i. none };
    sinks = [];
  };
}

abbrev program : State
program = record {
  handles = some (some 0) ∷ [];
  loggers = (codes "root", 0) ∷ [];
  process = record empty_program.process { heap = some root ∷ [] };
}

program-IsHierarchy : IsHierarchy program.process.heap
unfolding fetch add_sink new_logger
program-IsHierarchy zero p l e up = cc
program-IsHierarchy (suc i) p l e up = cc

root_here : fetch program.process.heap 0 ≡ some root
unfolding fetch
root_here = refl

root_sinks : DecidesSinks program.process.heap root (3 ∷ [])
unfolding add_sink new_logger
root_sinks = overridden refl

handle_guard : guard program.handles (some 0) ≡ proceeds 0
unfolding guard
handle_guard = refl

-- The format is printed with a zero in place of its argument.
abbrev text : Bytes → ℕ → Option Bytes
text fmt n = some (fmt ++ (0 ∷ fmt))

abbrev vsnprintf : ℕ → Bytes → ℕ → Option ℕ × Bytes
vsnprintf size fmt n = (some (length (fmt ++ (0 ∷ fmt))), take (size - 1) (fmt ++ (0 ∷ fmt)))

abbrev readings : ℕ → Reading ℕ
readings source = record { sim_time = 1; mission_elapsed = 2; wall_time_ns = pos source }

abbrev thread_id : ℕ → ℕ
thread_id i = i

abbrev never_throws : List (SinkEvent (LogRecord ℕ ℕ)) → SinkEvent (LogRecord ℕ ℕ) → Bool
never_throws cs c = false

sim_logger_flush-flushed_example :
    sim_logger_flush (recording never_throws) thread_id readings (some 0) program
    ≡ some
        (record program { process = record program.process { sinks = [] ++ map flushed (3 ∷ []) } })
sim_logger_flush-flushed_example =
    sim_logger_flush-flushed never_throws thread_id readings (some 0) 0 root (3 ∷ []) program
      handle_guard program-IsHierarchy root_here root_sinks

no_loggers-IsValid : IsValid (registry empty_program)
unfolding fetch find
no_loggers-IsValid = record { hierarchy = λ i p l e up. cc; listed = λ n i e. cc }

get_and_release_example :
    (out : ℕ × State) × (sim_logger_get (some (codes "a.b")) empty_program ≡ some out)
    × Acquired (text_or_empty (some (codes "a.b"))) empty_program out
    × ((s : State) × (sim_logger_release [] (some out.0) out.1 ≡ some s) × Released out.0 out.1 s)
get_and_release_example = get_and_release [] (some (codes "a.b")) empty_program no_loggers-IsValid
