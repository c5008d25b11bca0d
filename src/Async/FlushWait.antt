-- ===== src/Async/FlushWait.antt =====
-- The wait of `flush` in logger_core/src/async_sink.cpp, and the worker's notices that a flush is done:
-- the threads between the mutex and the condition variable. A thread that waits is woken by a notice
-- only.
mod Tests
pub mod Heard
pub mod Missed
use mathlib.Core.Option.{some-injective}
use sim_logger.Prelude.{
  ℕ, ◌≤◌, ◌<◌, Bool, true, false, List, [], ◌∷◌, Option, none, some, ◌≡◌, ◌≢◌, refl, sym, ap, ◌∙◌,
  subst, arith, ◌⊎◌, inl, inr, Bool-cases, Option-cases, leb, ◌==◌, ==_iff, if◌then◌else◌, if_both,
}

-- Where a thread stands in `flush` behind its kick.
pub data Place : Type 0 where
  -- before the lock of `flush_m`, also when it is woken
  arriving : Place
  -- with the mutex, before the test
  holding : Place
  -- with the mutex, behind a test that failed
  refused : Place
  asleep returned : Place

-- Where the worker stands: in its loop, and behind it.
pub data Notifier : Type 0 where
  idle : Notifier
  -- before the store of `flush_done_gen_`
  storing : ℕ → Notifier
  -- before the lock of `flush_m`, which it releases at once
  locking : Notifier
  -- before `notify_all`
  notifying : Notifier
  final_storing : ℕ → Notifier
  final_notifying ended : Notifier

-- `owner` is the thread that holds `flush_m`, `gens` the generation that each thread waits for.
pub record FlushWait : Type 0 where
  pub done : ℕ
  pub owner : Option ℕ
  pub gens : ℕ → ℕ
  pub places : ℕ → Place
  pub notifier : Notifier

pub put_place : ℕ → Place → FlushWait → ℕ → Place
put_place i p s j = if j == i then p else s.places j

-- `notify_all`
pub woken : Place → Place
woken asleep = arriving
woken p = p

-- A step that takes the mutex, which waits for it to be free.
pub when_free : Option ℕ → FlushWait → FlushWait → FlushWait
when_free none taken waiting = taken
when_free (some i) taken waiting = waiting

pub thread_in : Place → ℕ → FlushWait → FlushWait
unfolding put_place when_free
thread_in arriving i s =
    when_free s.owner (record s { owner = some i; places = put_place i holding s }) s
thread_in holding i s =
    if leb (s.gens i) s.done
    then record s { owner = none; places = put_place i returned s }
    else record s { places = put_place i refused s }
thread_in refused i s = record s { owner = none; places = put_place i asleep s }
thread_in asleep i s = s
thread_in returned i s = s

pub notify_in : Notifier → FlushWait → FlushWait
unfolding woken when_free
notify_in idle s = s
notify_in (storing want) s = record s { done = want; notifier = locking }
notify_in locking s = when_free s.owner (record s { notifier = notifying }) s
notify_in notifying s = record s { places = λ j. woken (s.places j); notifier = idle }
notify_in (final_storing want) s = record s { done = want; notifier = final_notifying }
notify_in final_notifying s = record s { places = λ j. woken (s.places j); notifier = ended }
notify_in ended s = s

pub acknowledge : Notifier → ℕ → FlushWait → FlushWait
acknowledge idle want s = record s { notifier = storing want }
acknowledge _ want s = s

-- A step of a thread, a step of the worker, and the worker's coming to acknowledge a request.
pub data WaitEvent : Type 0 where
  by_thread : ℕ → WaitEvent
  by_worker : WaitEvent
  acknowledges : ℕ → WaitEvent

pub wait_step : FlushWait → WaitEvent → FlushWait
unfolding thread_in notify_in acknowledge
wait_step s (by_thread i) = thread_in (s.places i) i s
wait_step s by_worker = notify_in s.notifier s
wait_step s (acknowledges want) = acknowledge s.notifier want s

pub wait_run : FlushWait → List WaitEvent → FlushWait
unfolding wait_step
wait_run s [] = s
wait_run s (e ∷ es) = wait_run (wait_step s e) es

-- The worker is in its loop, and a notice is still to come, or one behind the mutex.
pub in_loop : Notifier → Bool
in_loop (final_storing want) = false
in_loop final_notifying = false
in_loop ended = false
in_loop _ = true

pub notice_due : Notifier → Bool
notice_due locking = true
notice_due notifying = true
notice_due _ = false
