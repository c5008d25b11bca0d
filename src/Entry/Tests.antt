-- ===== src/Entry/Tests.antt =====
-- A call of LOG_WARNF("%s") by thread 2, with one logger and one sink.
use mathlib.Core.Option.{some-injective}
use sim_logger.Prelude.{
  ℕ, ◌-◌, zero, suc, Bool, false, List, [], ◌∷◌, Option, some, none, ◌≡◌, refl, ap, arith, pos,
  take, length, Bytes, codes,
}
use sim_logger.Level.{warn, info}
use sim_logger.LogRecord.{LogRecord}
use sim_logger.Logger.{Logger, new_logger, add_sink, fetch, lock}
use sim_logger.Logger.Effective.{
  IsHierarchy, DecidesLevel, DecidesSinks, DecidesFlush, overridden, topmost,
}
use sim_logger.Logger.Emit.{SinkEvent, recording}
use sim_logger.Time.{Reading}
use sim_logger.Entry.{Process, shared, as_logger, zeros, vformat_printf, log_printf}
use sim_logger.Entry.Printf.{IsVsnprintf, printed}
use sim_logger.Entry.Deliver.{call_record, Delivered, log_printf-Delivered}

abbrev root : Logger
root = add_sink 3 (new_logger (codes "root"))

abbrev process : Process (List (SinkEvent (LogRecord ℕ ℕ)))
process = record {
  heap = some root ∷ [];
  time = record { installed = none; fallback = 0; snapshots = λ i. none };
  sinks = [];
}

process-IsHierarchy : IsHierarchy process.heap
unfolding fetch add_sink new_logger
process-IsHierarchy zero p l e up = cc
process-IsHierarchy (suc i) p l e up = cc

root_here : fetch process.heap 0 ≡ some root
unfolding fetch
root_here = refl

root_level : DecidesLevel process.heap root info
unfolding add_sink new_logger lock
root_level = topmost refl refl

root_sinks : DecidesSinks process.heap root (3 ∷ [])
unfolding add_sink new_logger
root_sinks = overridden refl

root_flush : DecidesFlush process.heap root false
unfolding add_sink new_logger lock
root_flush = topmost refl refl

-- The format is printed without its arguments; the empty one fails.
abbrev text : Bytes → ℕ → Option Bytes
text [] n = none
text (c ∷ fmt) n = some (c ∷ fmt)

abbrev vsnprintf : ℕ → Bytes → ℕ → Option ℕ × Bytes
vsnprintf size [] n = (none, [])
vsnprintf size (c ∷ fmt) n = (some (length (c ∷ fmt)), take (size - 1) (c ∷ fmt))

stored :
    (size : ℕ) (fmt : Bytes) (n : ℕ) (t : Bytes)
    → text fmt n ≡ some t
    → vsnprintf size fmt n ≡ (some (length t), take (size - 1) t)
stored size [] n t e = cc
stored size (c ∷ fmt) n t e =
    ap (λ u. (some (length u), take (size - 1) u)) (some-injective (c ∷ fmt) t e)

failed : (size : ℕ) (fmt : Bytes) (n : ℕ) → text fmt n ≡ none → (vsnprintf size fmt n).0 ≡ none
failed size [] n e = refl
failed size (c ∷ fmt) n e = cc

vsnprintf-IsVsnprintf : IsVsnprintf vsnprintf text
vsnprintf-IsVsnprintf = record { fails = failed; prints = stored }

abbrev readings : ℕ → Reading ℕ
readings source = record { sim_time = 1; mission_elapsed = 2; wall_time_ns = pos source }

abbrev thread_id : ℕ → ℕ
thread_id i = i

abbrev never_throws : List (SinkEvent (LogRecord ℕ ℕ)) → SinkEvent (LogRecord ℕ ℕ) → Bool
never_throws cs c = false

message_whole : vformat_printf vsnprintf (some (codes "hot")) 5 ≡ codes "hot"
unfolding vformat_printf zeros
message_whole = refl

log_printf-Delivered_example :
    Delivered thread_id readings never_throws 2 0 root info
      (3 ∷ [])
      false
      (call_record thread_id readings 2 root warn
        (some (codes "a.cpp"))
        9
        none
        (printed text (some (codes "hot")) 5)
        process.time)
      process
      (log_printf
        (recording never_throws)
        thread_id
        readings
        vsnprintf
        2
        (shared (some 0))
        warn
        (some (codes "a.cpp"))
        9
        none
        (some (codes "hot"))
        5
        process)
unfolding add_sink new_logger as_logger
log_printf-Delivered_example =
    log_printf-Delivered thread_id readings never_throws vsnprintf text 2 (shared (some 0)) 0 root
      info (3 ∷ []) false warn (some (codes "a.cpp")) 9 none (some (codes "hot")) 5 process
      vsnprintf-IsVsnprintf refl process-IsHierarchy root_here root_level root_sinks root_flush
      (omega arith)
