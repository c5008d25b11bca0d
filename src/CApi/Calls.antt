-- ===== src/CApi/Calls.antt =====
-- The calls that log and flush through a handle, against the C++ functions.
use sim_logger.Prelude.{
  ℕ, Bool, List, [], ◌∷◌, ◌++◌, map, Option, none, some, ◌≡◌, sym, ◌∙◌, append_assoc, append-nil,
}
use sim_logger.LogRecord.{LogRecord}
use sim_logger.Sink.{SinkPtr}
use sim_logger.Logger.{Logger, fetch, effective_sinks}
use sim_logger.Logger.Effective.{IsHierarchy, DecidesSinks, inherit_iff}
use sim_logger.Logger.Emit.{SinkEvent, flushed, recording}
use sim_logger.Time.{Reading}
use sim_logger.Entry.{Process}
use sim_logger.CApi.{Program, guard, proceeds, flush_each, sim_logger_flush}

module _ {W : Type 0} where
  -- The process of the program is changed.
  abbrev pub in_process : Program W → Option (Process W) → Option (Program W)
  in_process s o = elim o [ some p ↦ some (record s { process = p }) | none ↦ none ]

module _ {D T : Type 0}
    (throws : List (SinkEvent (LogRecord D T)) → SinkEvent (LogRecord D T) → Bool) (get_id : ℕ → T)
    (readings : ℕ → Reading D) where
  flush_each-recording :
      (ss : List SinkPtr) (w : List (SinkEvent (LogRecord D T)))
      → flush_each (recording throws) get_id readings ss w ≡ w ++ map flushed ss
  unfolding flush_each
  flush_each-recording [] w = sym (append-nil w)
  flush_each-recording (s ∷ ss) w =
      flush_each-recording ss (w ++ (flushed s ∷ []))
      ∙ append_assoc w (flushed s ∷ []) (map flushed ss)

  -- A call of `sim_logger_flush` through a live handle to a logger of a hierarchy, whose effective
  -- sinks are `ss`, flushes each of them once and in their order, whichever of these calls throw, and
  -- changes nothing else.
  pub sim_logger_flush-flushed :
      (logger : Option ℕ) (j : ℕ) (l : Logger) (ss : List SinkPtr)
      (s : Program (List (SinkEvent (LogRecord D T))))
      → guard s.handles logger ≡ proceeds j
      → IsHierarchy s.process.heap
      → fetch s.process.heap j ≡ some l
      → DecidesSinks s.process.heap l ss
      → sim_logger_flush (recording throws) get_id readings logger s
        ≡ some
            (record s { process = record s.process { sinks = s.process.sinks ++ map flushed ss } })
  unfolding sim_logger_flush effective_sinks
  sim_logger_flush-flushed logger j l ss s e tree here ds = rw (
    e,
    sim_logger_flush,
    here,
    (inherit_iff _ _ _ s.process.heap j l ss tree here).1 ds,
    flush_each-recording ss s.process.sinks,
  )
