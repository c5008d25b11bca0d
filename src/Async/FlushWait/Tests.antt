-- ===== src/Async/FlushWait/Tests.antt =====
-- The notices at one thread that waits for the first flush.
use sim_logger.Prelude.{List, [], ◌∷◌, none, some, ◌≡◌, ◌≢◌, ◌≤◌, refl, arith}
use sim_logger.Async.FlushWait.{
  FlushWait, arriving, refused, asleep, idle, final_storing, ended, put_place, woken, when_free,
  thread_in, notify_in, acknowledge, WaitEvent, by_thread, by_worker, acknowledges, wait_step,
  wait_run,
}
use sim_logger.Async.FlushWait.Heard.{no_flush_sleeps_on}
use sim_logger.Async.FlushWait.Missed.{final_notice_missed}

abbrev waiting_thread : FlushWait
waiting_thread = record {
  done = 0;
  owner = none;
  gens = λ j. 1;
  places = λ j. arriving;
  notifier = idle;
}

abbrev steps : List WaitEvent
steps =
    by_thread 0
    ∷ by_thread 0
    ∷ acknowledges 1
    ∷ by_worker
    ∷ by_worker
    ∷ by_thread 0
    ∷ by_worker
    ∷ by_worker
    ∷ []

rests : (wait_run waiting_thread steps).notifier ≡ idle
unfolding wait_run wait_step thread_in notify_in acknowledge put_place woken when_free
rests = refl

all_served : (wait_run waiting_thread steps).gens 0 ≤ (wait_run waiting_thread steps).done
unfolding wait_run wait_step thread_in notify_in acknowledge put_place woken when_free
all_served = omega arith

no_flush_sleeps_on_example :
    ((wait_run waiting_thread steps).places 0 ≢ asleep)
    × ((wait_run waiting_thread steps).places 0 ≢ refused)
no_flush_sleeps_on_example =
    no_flush_sleeps_on waiting_thread steps 0 (λ j. refl) refl rests all_served

abbrev at_the_end : FlushWait
at_the_end = record {
  done = 0;
  owner = some 0;
  gens = λ j. 1;
  places = λ j. refused;
  notifier = final_storing 1;
}

final_notice_missed_example :
    let s = wait_run (wait_run at_the_end (by_worker ∷ by_worker ∷ by_thread 0 ∷ [])) steps in
    (s.places 0 ≡ asleep) × (s.gens 0 ≤ s.done) × (s.notifier ≡ ended)
final_notice_missed_example = final_notice_missed at_the_end 0 1 steps refl refl (omega arith)
