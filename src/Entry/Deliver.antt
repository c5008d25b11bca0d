-- ===== src/Entry/Deliver.antt =====
-- What the sinks get from a call of the logging functions.
use sim_logger.Prelude.{ℕ, ◌<◌, Bool, true, false, List, [], Option, none, some, ◌≡◌, ap, Bytes}
use sim_logger.Level.{Level, is_at_least}
use sim_logger.LogRecord.{LogRecord}
use sim_logger.Sink.{SinkPtr}
use sim_logger.Logger.{Logger, Heap, u64_mod, fetch, modify, log}
use sim_logger.Logger.Effective.{IsHierarchy, DecidesLevel, DecidesSinks, DecidesFlush}
use sim_logger.Logger.Emit.{SinkEvent, recording, Emitted, log_emits}
use sim_logger.Time.{Reading, GlobalTime, global_time_source, global_time_source_ref}
use sim_logger.Entry.{LoggerLike, as_logger, text_or_empty, Process, log_string, log_printf}
use sim_logger.Entry.Printf.{IsVsnprintf, printed, vformat_printf-printed}

module _ {D T : Type 0} (get_id : ℕ → T) (readings : ℕ → Reading D) where
  -- The record of a call from a thread at a place in the source, by the logger `l`.
  unfoldable pub call_record :
      ℕ → Logger → Level → Option Bytes → ℕ → Option Bytes → Bytes → GlobalTime → LogRecord D T
  call_record thread l level file line function message t = record {
    level = level;
    sim_time = (readings (global_time_source t)).sim_time;
    met = (readings (global_time_source t)).mission_elapsed;
    wall_time_ns = (readings (global_time_source t)).wall_time_ns;
    thread_id = get_id thread;
    file = text_or_empty file;
    line = line;
    function = text_or_empty function;
    logger_name = l.name;
    tags = [];
    message = message;
  }

  -- A call that hands the record `r` to the logger `l` in cell `i`: below the level `v` only the
  -- thread's snapshot of the time source moves; else the sinks `ss` get the record.
  pub record Delivered
      (throws : List (SinkEvent (LogRecord D T)) → SinkEvent (LogRecord D T) → Bool) (thread i : ℕ)
      (l : Logger) (v : Level) (ss : List SinkPtr) (b : Bool) (r : LogRecord D T)
      (p : Process (List (SinkEvent (LogRecord D T))))
      (ran : Option (Process (List (SinkEvent (LogRecord D T))))) : Type 0 where
    pub below :
        is_at_least r.level v ≡ false
        → ran ≡ some (record p { time = (global_time_source_ref thread p.time).1 })
    pub passes :
        is_at_least r.level v ≡ true
        → (out : List (SinkEvent (LogRecord D T)) × ℕ) × (ran
            ≡ some (record {
              heap = modify p.heap i (λ l'. record l' { sink_failures_count = out.1 });
              time = (global_time_source_ref thread p.time).1;
              sinks = out.0;
            }))
          × Emitted throws b r ss p.sinks l.sink_failures_count out

  module _ (throws : List (SinkEvent (LogRecord D T)) → SinkEvent (LogRecord D T) → Bool) where
    -- The logger's part.
    finish :
        Option (Heap × List (SinkEvent (LogRecord D T)))
        → GlobalTime
        → Option (Process (List (SinkEvent (LogRecord D T))))
    finish o time = elim o [
      | none ↦ none
      | some (heap, sinks) ↦ some (record { heap = heap; time = time; sinks = sinks })
    ]

    log_string-log :
        (thread : ℕ) (logger_like : LoggerLike) (i : ℕ) (l : Logger) (level : Level)
        (file : Option Bytes) (line : ℕ) (function : Option Bytes) (message : Bytes)
        (p : Process (List (SinkEvent (LogRecord D T))))
        → as_logger logger_like ≡ some i
        → fetch p.heap i ≡ some l
        → log_string
            (recording throws)
            get_id
            readings
            thread
            logger_like
            level
            file
            line
            function
            message
            p
          ≡ finish
              (log
                (recording throws)
                p.heap
                i
                l
                level
                (call_record thread l level file line function message p.time)
                p.sinks)
              (global_time_source_ref thread p.time).1
    unfolding log_string finish call_record global_time_source_ref
    log_string-log thread logger_like i l level file line function message p e here =
        rw (e, log_string, here)

    -- A call of `log_printf` for a live logger of a hierarchy, by a reference or a pointer, with
    -- vsnprintf as it is documented, where the logger's failure counter is below 2 ^ 64 and its
    -- effective settings are `v`, `ss` and `b`. It returns. Below the level `v` only the thread's
    -- snapshot of the time source changes. Else every sink of `ss` is written, once and in order, the
    -- record that has the level, the place in the source with empty texts for null pointers, the
    -- logger's own name, the readings of the installed time source or else of the fallback, the
    -- thread, no tags, and for a message what the format prints: all of it, whatever its length, and
    -- nothing for a null format or one that fails. Flushes and failures are as for `log`.
    pub log_printf-Delivered :
        {A : Type 0} (vsnprintf : ℕ → Bytes → A → Option ℕ × Bytes)
        (text : Bytes → A → Option Bytes) (thread : ℕ) (logger_like : LoggerLike) (i : ℕ)
        (l : Logger) (v : Level) (ss : List SinkPtr) (b : Bool) (level : Level)
        (file : Option Bytes) (line : ℕ) (function fmt : Option Bytes) (args : A)
        (p : Process (List (SinkEvent (LogRecord D T))))
        → IsVsnprintf vsnprintf text
        → as_logger logger_like ≡ some i
        → IsHierarchy p.heap
        → fetch p.heap i ≡ some l
        → DecidesLevel p.heap l v
        → DecidesSinks p.heap l ss
        → DecidesFlush p.heap l b
        → l.sink_failures_count < u64_mod
        → Delivered throws thread i l v ss b
            (call_record thread l level file line function (printed text fmt args) p.time)
            p
            (log_printf
              (recording throws)
              get_id
              readings
              vsnprintf
              thread
              logger_like
              level
              file
              line
              function
              fmt
              args
              p)
    unfolding log_printf finish call_record
    log_printf-Delivered vsnprintf text thread logger_like i l v ss b level file line function fmt
          args p ok e tree here dv ds db small =
        let r = call_record thread l level file line function (printed text fmt args) p.time in
        let (low, high) =
          log_emits throws p.heap i l v ss b level r p.sinks tree here dv ds db small in
        let time = (global_time_source_ref thread p.time).1 in
        rw
          (
            vformat_printf-printed vsnprintf text ok fmt args,
            log_string-log thread logger_like i l level file line function (printed text fmt args) p
                e here,
          )
          (record {
            below = λ h. ap (λ o. finish o time) (low h);
            passes = λ h.
                let (out, ran, emitted) = high h in (out, ap (λ o. finish o time) ran, emitted);
          })
