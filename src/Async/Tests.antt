-- ===== src/Async/Tests.antt =====
-- The asynchronous sink's theorems at a small sink.
use sim_logger.Prelude.{
  ◌%◌, Option, codes, pos, ◌==◌, ℕ, true, false, Bool, List, [], ◌∷◌, ◌++◌, some, ◌≡◌, refl, arith,
}
use sim_logger.Formatter.{Printed}
use sim_logger.Queue.{
  drop_oldest, drop_newest, block, new_queue, enqueue, push_and_notify, push_unlocked,
  wait_for_work, has_work, has_items_unlocked, dequeue_batch, batch_size, move_batch, move_oldest,
  pop_oldest_unlocked, kick_for_flush,
}
use sim_logger.Queue.Inv.{Holds}
use sim_logger.Queue.Fifo.{new_fifo}
use sim_logger.Queue.Refine.{new-Represents}
use sim_logger.Async.{
  u64_mod, finished, write, flush, submit, work, work_in, wait_round, take_batch, count_drops,
  call_wrapped, waiting, kick, writing, request_stop_once, AsyncSink, SinkCall, create, checking,
  request_flush, flush_returns,
}
use sim_logger.Async.Schedule.{
  Event, step, writes, requests_flush, kicks, works, stops, run, all_taken_in, all_returned,
}
use sim_logger.Async.Books.{delivered}
use sim_logger.Async.Covers.{Flushed, flush_covers}
use sim_logger.Async.Delivery.{stop_delivers}
use sim_logger.Async.Failures.{failures}
use sim_logger.Async.Totals.{Totals}
use sim_logger.Async.Played.{Filed, play, file_throws}
use sim_logger.Async.WrappedFile.{file_keeps}
use sim_logger.Level.{warn}
use sim_logger.LogRecord.{LogRecord}
use sim_logger.Disk.{Disk}
use sim_logger.FileSink.{FileSink}
use sim_logger.Async.Ending.{is_looping, Ends}
use sim_logger.Async.Reaches.{Reaches}
use sim_logger.Async.Served.{flush_served}
use sim_logger.Async.Shutdown.{stop_drains}
use sim_logger.Async.Accounts.{Ledger, run_accounted}
use sim_logger.Async.FlushRace.{flush_misses_write}

abbrev never : List (SinkCall ℕ) → SinkCall ℕ → Bool
never cs c = false

abbrev small_sink : AsyncSink ℕ
small_sink = record {
  queue = new_queue 2 drop_oldest;
  max_batch = 4;
  stop_requested = false;
  flush_request_gen = 0;
  flush_done_gen = 0;
  dropped_records_count = 0;
  sink_failures_count = 0;
  phase = waiting;
  last_seen_flush_gen = 0;
  calls = [];
  kicking = 0;
}

abbrev schedule : List (Event ℕ)
schedule =
    writes 1
    ∷ writes 2
    ∷ writes 3
    ∷ works
    ∷ works
    ∷ requests_flush
    ∷ works
    ∷ stops
    ∷ kicks
    ∷ writes 4
    ∷ works
    ∷ []

created : create true 2 drop_oldest 4 ≡ some small_sink
unfolding create
created = refl

run_accounted_example :
    Ledger never
      (run never small_sink schedule)
      (all_taken_in never small_sink schedule)
      (all_returned never small_sink schedule)
run_accounted_example =
    run_accounted never true 2 drop_oldest 4 small_sink schedule (omega arith) created

-- The sink with its worker behind the test for an empty queue.
abbrev checking_sink : AsyncSink ℕ
checking_sink = record small_sink { phase = checking }

new-Holds : Holds {A = ℕ} (new_queue 2 drop_oldest) []
unfolding new_fifo
new-Holds = (new-Represents {A = ℕ} 2 drop_oldest (omega arith)).holds

flush_misses_write_example :
    (s' : AsyncSink ℕ) × (run never checking_sink
        (writes 5 ∷ requests_flush ∷ kicks ∷ works ∷ works ∷ works ∷ [])
      ≡ some s')
    × (flush_returns s' (request_flush checking_sink).0 ≡ true)
    × Holds s'.queue ([] ++ (5 ∷ []))
    × (delivered s'.calls ≡ [])
unfolding new_queue
flush_misses_write_example =
    flush_misses_write never checking_sink 5 [] new-Holds refl (omega arith) (omega arith) refl refl

-- The worker has two records in its hands, and a flush is requested.
abbrev busy_sink : AsyncSink ℕ
busy_sink = record small_sink { phase = writing (7 ∷ 8 ∷ []); flush_request_gen = 1 }

stop_drains_example :
    Ends never (delivered [] ++ ((7 ∷ 8 ∷ []) ++ [])) (request_stop_once busy_sink)
unfolding new_queue is_looping
stop_drains_example = stop_drains never busy_sink [] new-Holds (omega arith) refl refl

flush_served_example :
    let (gen, asked) = request_flush (record small_sink { phase = writing (7 ∷ 8 ∷ []) }) in
    Reaches never (λ s'. flush_returns s' gen ≡ true) (kick asked)
unfolding new_queue is_looping
flush_served_example =
    flush_served never (record small_sink { phase = writing (7 ∷ 8 ∷ []) }) [] new-Holds refl
      (omega arith) refl refl

-- A queue of two that refuses the newest; the flush is requested while the worker holds the records.
abbrev small_newest : AsyncSink ℕ
small_newest = record small_sink { queue = new_queue 2 drop_newest }

abbrev before_request : List (Event ℕ)
before_request = writes 1 ∷ writes 2 ∷ writes 3 ∷ works ∷ works ∷ []

abbrev after_request : List (Event ℕ)
after_request =
    kicks
    ∷ writes 4
    ∷ works
    ∷ works
    ∷ works
    ∷ works
    ∷ works
    ∷ works
    ∷ works
    ∷ works
    ∷ works
    ∷ works
    ∷ []

abbrev at_request : AsyncSink ℕ
at_request = record small_newest { dropped_records_count = 1; phase = writing (1 ∷ 2 ∷ []) }

abbrev at_return : AsyncSink ℕ
at_return = record at_request {
  queue = record (new_queue 2 drop_newest) { head = 1; tail = 1; flush_kick = true };
  flush_request_gen = 1;
  flush_done_gen = 1;
  phase = waiting;
  last_seen_flush_gen = 1;
  calls = write 1 ∷ write 2 ∷ write 4 ∷ flush ∷ [];
}

created_newest : create true 2 drop_newest 4 ≡ some small_newest
unfolding create
created_newest = refl

runs_to_request : run never small_newest before_request ≡ some at_request
unfolding run step submit enqueue new_queue push_and_notify push_unlocked work work_in wait_round
    wait_for_work has_work has_items_unlocked take_batch dequeue_batch batch_size move_batch
    move_oldest pop_oldest_unlocked count_drops
runs_to_request = refl

runs_to_return : run never (request_flush at_request).1 after_request ≡ some at_return
unfolding run step submit enqueue new_queue push_and_notify push_unlocked work work_in wait_round
    wait_for_work has_work has_items_unlocked take_batch dequeue_batch batch_size move_batch
    move_oldest pop_oldest_unlocked count_drops kick kick_for_flush request_flush call_wrapped
runs_to_return = refl

returns_then : flush_returns at_return (request_flush at_request).0 ≡ true
unfolding flush_returns request_flush
returns_then = refl

stop_delivers_example :
    (all : List ℕ) × Ends never all (request_stop_once at_request)
    × Totals drop_newest at_request.dropped_records_count all
        (all_taken_in never small_newest before_request)
        (all_returned never small_newest before_request)
stop_delivers_example =
    stop_delivers never true 2 drop_newest 4 small_newest at_request before_request (omega arith)
      created_newest runs_to_request refl

flush_covers_example : Flushed (all_taken_in never small_newest before_request) at_return.calls
flush_covers_example =
    flush_covers never true 2 drop_newest 4 small_newest at_request at_return before_request
      after_request (omega arith) (λ e. cc) (omega arith) created_newest runs_to_request refl
      (λ e. cc) runs_to_return returns_then

-- A sink in front of a file, on a disk whose first call fails.
abbrev log_file : FileSink
log_file = record {
  path = codes "a.log";
  formatter = record { pattern = codes "{msg}"; tokens = codes "msg" ∷ [] };
  durable_flush = false;
  file = some (codes "a.log");
  bytes_written = 0;
}

abbrev log_disk : Disk
log_disk = record { files = []; calls = 0 }

abbrev first_fails : ℕ → Bool
first_fails i = i == 0

abbrev nothing_short : ℕ → ℕ
nothing_short i = 0

abbrev prints : ℕ → Option Printed
prints x = some (record { text = codes "0"; behind = [] })

abbrev hashes : ℕ → ℕ
hashes x = x

abbrev hot : LogRecord ℕ ℕ
hot = record {
  level = warn;
  sim_time = 1;
  met = 2;
  wall_time_ns = pos 3;
  thread_id = 4;
  file = codes "a.cpp";
  line = 5;
  function = codes "f";
  logger_name = codes "root";
  tags = [];
  message = codes "hot";
}

abbrev file_async : AsyncSink (LogRecord ℕ ℕ)
file_async = record {
  queue = new_queue 2 block;
  max_batch = 4;
  stop_requested = false;
  flush_request_gen = 0;
  flush_done_gen = 0;
  dropped_records_count = 0;
  sink_failures_count = 0;
  phase = waiting;
  last_seen_flush_gen = 0;
  calls = [];
  kicking = 0;
}

abbrev file_writing : AsyncSink (LogRecord ℕ ℕ)
file_writing = record file_async { phase = writing (hot ∷ hot ∷ []) }

abbrev file_schedule : List (Event (LogRecord ℕ ℕ))
file_schedule = writes hot ∷ writes hot ∷ works ∷ works ∷ []

file_created : create true 2 block 4 ≡ some file_async
unfolding create
file_created = refl

file_ran :
    run
      (file_throws prints hashes first_fails nothing_short log_file log_disk)
      file_async
      file_schedule
    ≡ some file_writing
unfolding run step submit enqueue new_queue push_and_notify push_unlocked work work_in wait_round
    wait_for_work has_work has_items_unlocked take_batch dequeue_batch batch_size move_batch
    move_oldest pop_oldest_unlocked count_drops
file_ran = refl

file_keeps_example :
    let throws = file_throws prints hashes first_fails nothing_short log_file log_disk in
    (all : List (LogRecord ℕ ℕ)) × Totals block 0 all
      (all_taken_in throws file_async file_schedule)
      (all_returned throws file_async file_schedule)
    × Reaches throws
        (λ s.
          (s.phase ≡ finished)
          × (let failed = failures throws [] s.calls in
              (s.sink_failures_count ≡ failed % u64_mod)
              × Filed prints hashes first_fails nothing_short
                  (codes "a.log")
                  log_file.formatter
                  all
                  failed
                  log_disk
                  (play prints hashes first_fails nothing_short s.calls log_file log_disk).1))
        (request_stop_once file_writing)
file_keeps_example =
    file_keeps prints hashes first_fails nothing_short 2 block 4 log_file log_disk (codes "a.log")
      file_async file_writing file_schedule refl (omega arith) file_created file_ran refl
