-- ===== src/Async/Schedule.antt =====
-- The threads of an asynchronous sink interleaved: producers that write and flush, the worker, and
-- the thread that stops the sink.
use mathlib.Core.Option.{some-injective}
use sim_logger.Prelude.{
  Option-cases, inl, inr, ℕ, ◌+◌, Bool, List, [], ◌∷◌, ◌++◌, Option, none, some, ◌≡◌, ltb,
  if◌then◌else◌,
}
use sim_logger.Queue.{returns, sleeps, enqueue}
use sim_logger.Async.{
  AsyncSink, SinkCall, Written, wrote, blocked, request_stop_once, submit, request_flush, kick,
  work,
}

pub data Event (A : Type 0) : Type 0 where
  writes : A → Event A
  requests_flush kicks works stops : Event A

module _ {A : Type 0} where
  abbrev pub settle : Written A → AsyncSink A
  settle (wrote s) = s
  settle (blocked s) = s

  -- The records that the queue takes in at this event.
  unfoldable pub taken_in : AsyncSink A → Event A → List A
  taken_in s (writes r) = elim (enqueue s.queue r) [
    | returns res _ ↦ if res.enqueued then r ∷ [] else []
    | sleeps _ ↦ []
  ]
  taken_in s _ = []

  -- The calls of `write` that return at this event.
  unfoldable pub returned : AsyncSink A → Event A → ℕ
  returned s (writes r) = elim (enqueue s.queue r) [ returns _ _ ↦ 1 | sleeps _ ↦ 0 ]
  returned s _ = 0

module _ {A : Type 0} (throws : List (SinkCall A) → SinkCall A → Bool) where
  -- A blocked `write` leaves its thread asleep; the thread tries again by another event. A kick is
  -- made by a thread that has requested a flush.
  unfoldable pub step : AsyncSink A → Event A → Option (AsyncSink A)
  step s (writes r) = some (settle (submit s r))
  step s requests_flush = some (request_flush s).1
  step s kicks = some (if ltb 0 s.kicking then kick s else s)
  step s works = work throws s
  step s stops = some (request_stop_once s)

  unfoldable pub run : AsyncSink A → List (Event A) → Option (AsyncSink A)
  run s [] = some s
  run s (e ∷ es) = elim (step s e) [ some s' ↦ run s' es | none ↦ none ]

  -- The records taken in and the writes returned over a schedule.
  unfoldable pub all_taken_in : AsyncSink A → List (Event A) → List A
  all_taken_in s [] = []
  all_taken_in s (e ∷ es) = elim (step s e) [
    | some s' ↦ taken_in s e ++ all_taken_in s' es
    | none ↦ taken_in s e
  ]

  unfoldable pub all_returned : AsyncSink A → List (Event A) → ℕ
  all_returned s [] = 0
  all_returned s (e ∷ es) = elim (step s e) [
    | some s' ↦ returned s e + all_returned s' es
    | none ↦ returned s e
  ]

  -- A schedule runs event by event.
  pub run-cons :
      (s : AsyncSink A) (e : Event A) {s' : AsyncSink A} (es : List (Event A))
      {r : Option (AsyncSink A)}
      → step s e ≡ some s'
      → run s' es ≡ r
      → run s (e ∷ es) ≡ r
  unfolding run
  run-cons s e es p q = rw (p, run) q

  -- One schedule after the other
  pub run-append :
      (es es' : List (Event A)) (s : AsyncSink A) {s' : AsyncSink A} {r : Option (AsyncSink A)}
      → run s es ≡ some s'
      → run s' es' ≡ r
      → run s (es ++ es') ≡ r
  unfolding run
  run-append [] es' s {s' = s'} p q = rw (some-injective s s' p) q
  run-append (e ∷ es) es' s p q = elim (Option-cases (step s e)) [
    | inl stuck ↦ cc (rw (stuck, run) at p)
    | inr (s1, moved) ↦ rw (moved, run) (run-append es es' s1 (rw (moved, run) at p) q)
  ]
