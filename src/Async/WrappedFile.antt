-- ===== src/Async/WrappedFile.antt =====
-- A file sink behind an asynchronous sink: what stands in the file in the end.
use sim_logger.Prelude.{
  ℕ, ◌%◌, replicate, ◌<◌, Bool, true, false, List, [], ◌∷◌, ◌++◌, Option, some, ◌≡◌, refl, subst,
  Bytes,
}
use sim_logger.Formatter.{Printed}
use sim_logger.LogRecord.{LogRecord}
use sim_logger.Disk.{Disk}
use sim_logger.FileSink.{FileSink}
use sim_logger.Queue.{OverflowPolicy, size_mod}
use sim_logger.Async.{u64_mod, AsyncSink, create, request_stop_once, finished}
use sim_logger.Async.Failures.{failures, failures_counted}
use sim_logger.Async.Delivery.{stop_delivers}
use sim_logger.Async.Reaches.{Reaches}
use sim_logger.Async.Schedule.{
  Event, works, stops, step, run, run-cons, run-append, all_taken_in, all_returned,
}
use sim_logger.Async.Totals.{Totals}
use sim_logger.Async.Played.{play, file_throws, Filed, play-Filed}

module _ {D T : Type 0} (snprintf : D → Option Printed) (hash : T → ℕ) (fails : ℕ → Bool)
    (short : ℕ → ℕ) where
  -- Let a new asynchronous sink wrap a file sink whose stream is open on a file, let any schedule run,
  -- whatever calls of the system fail, and let the sink then be stopped for the first time. Then after
  -- some number of steps the worker alone has finished, and the calls that the file sink has got have
  -- added to its file, behind what it held, the lines of the records in the order in which they were
  -- taken in: each in whole or, where the write threw, a part from its start, or nothing where the
  -- formatter threw. The lines that are not whole are no more than those of these calls that threw,
  -- and `sink_failures_count` is the number of calls that threw, modulo 2^64. The records are all
  -- that were taken in unless the policy is to drop the oldest, and they and the dropped ones, which
  -- are counted modulo 2^64, number the writes that returned. No other file has changed.
  pub file_keeps :
      (capacity : ℕ) (policy : OverflowPolicy) (max_batch : ℕ) (f : FileSink) (d : Disk) (n : Bytes)
      (s s' : AsyncSink (LogRecord D T)) (es : List (Event (LogRecord D T)))
      → f.file ≡ some n
      → capacity < size_mod
      → create true capacity policy max_batch ≡ some s
      → run (file_throws snprintf hash fails short f d) s es ≡ some s'
      → s'.stop_requested ≡ false
      → (all : List (LogRecord D T)) × Totals policy s'.dropped_records_count all
          (all_taken_in (file_throws snprintf hash fails short f d) s es)
          (all_returned (file_throws snprintf hash fails short f d) s es)
        × Reaches
            (file_throws snprintf hash fails short f d)
            (λ s''.
              (s''.phase ≡ finished)
              × (let failed = failures (file_throws snprintf hash fails short f d) [] s''.calls in
                  (s''.sink_failures_count ≡ failed % u64_mod)
                  × Filed snprintf hash fails short n f.formatter all failed d
                      (play snprintf hash fails short s''.calls f d).1))
            (request_stop_once s')
  unfolding step play
  file_keeps capacity policy max_batch f d n s s' es here small made ran running =
      let (all, ends, totals) =
        stop_delivers (file_throws snprintf hash fails short f d) true capacity policy max_batch s
          s' es small made ran running in
      (
        all,
        totals,
        record {
          steps = ends.steps;
          rest = ends.rest;
          ran = ends.ran;
          reached = (
            ends.reached.phase,
            (
              failures_counted (file_throws snprintf hash fails short f d) true capacity policy
                  max_batch s ends.rest (es ++ (stops ∷ replicate ends.steps works)) made
                  (run-append (file_throws snprintf hash fails short f d) es
                    (stops ∷ replicate ends.steps works) s ran
                    (run-cons (file_throws snprintf hash fails short f d) s' stops
                      (replicate ends.steps works) refl ends.ran)),
              subst
                  (λ rs.
                    Filed snprintf hash fails short n f.formatter rs
                      (failures (file_throws snprintf hash fails short f d) [] ends.rest.calls) d
                      (play snprintf hash fails short ends.rest.calls f d).1)
                  ends.reached.delivers
                  (play-Filed snprintf hash fails short f d ends.rest.calls [] n f.formatter f d
                    refl here refl),
            ),
          );
        },
      )
