-- ===== src/Async.antt =====
-- The asynchronous sink: logger_core/include/logger/async_sink.hpp and
-- logger_core/src/async_sink.cpp. Each function is a stretch of one thread's code that touches the
-- shared state once: a call of the queue, an atomic, or a call of the wrapped sink; a write with
-- its counters and a request to stop with its kick are one step each.
mod Tests
pub mod Schedule
pub mod Totals
pub mod Books
pub mod Worker
pub mod Accounts
pub mod Failures
pub mod FlushRace
pub mod FlushWait
pub mod Reaches
pub mod Ending
pub mod InLoop
pub mod Moves
pub mod Gens
pub mod Shutdown
pub mod Delivery
pub mod Played
pub mod WrappedFile
pub mod Covers
pub mod Served
use sim_logger.Prelude.{
  ℕ, suc, zero, ◌+◌, ◌-◌, ◌%◌, ◌^◌, Bool, true, false, not, ◌&&◌, List, [], ◌∷◌, ◌++◌, Option, none,
  some, ltb, leb, ◌==◌, if◌then◌else◌,
}
use sim_logger.Queue.{
  Queue, OverflowPolicy, Enqueued, returns, sleeps, EnqueueResult, new_queue, enqueue,
  dequeue_batch, has_items_unlocked, request_stop, kick_for_flush, wait_for_work,
}

-- `std::uint64_t` counters
abbrev pub u64_mod : ℕ
u64_mod = 2 ^ 64

abbrev pub add_u64 : ℕ → ℕ → ℕ
add_u64 a b = (a + b) % u64_mod

-- The calls that a sink receives.
pub data SinkCall (A : Type 0) : Type 0 where
  write : A → SinkCall A
  flush : SinkCall A

-- Where the worker thread stands in `worker_loop_`.
pub data Phase (A : Type 0) : Type 0 where
  -- before or in `wait_for_work`
  waiting : Phase A
  -- before `dequeue_batch` in the loop
  draining : Phase A
  -- with the rest of a batch to write
  writing : List A → Phase A
  -- the queue was found empty; before the load of `flush_request_gen_`
  checking : Phase A
  -- `want` is loaded and new; before the wrapped sink's flush
  flushing : ℕ → Phase A
  -- before the store of `flush_done_gen_`
  publishing : ℕ → Phase A
  -- the same behind the loop, on shutdown
  final_draining : Phase A
  final_writing : List A → Phase A
  final_flushing final_checking : Phase A
  final_publishing : ℕ → Phase A
  finished : Phase A

-- `calls` are those that the wrapped sink has received, oldest first; `kicking` counts the threads
-- in `flush` between the request and the kick.
pub record AsyncSink (A : Type 0) : Type 0 where
  pub queue : Queue A
  pub max_batch : ℕ
  pub stop_requested : Bool
  pub flush_request_gen : ℕ
  pub flush_done_gen : ℕ
  pub dropped_records_count : ℕ
  pub sink_failures_count : ℕ
  pub phase : Phase A
  pub last_seen_flush_gen : ℕ
  pub calls : List (SinkCall A)
  pub kicking : ℕ

-- The counter after an enqueue that returned.
pub count_drops : EnqueueResult → ℕ → ℕ
count_drops res n =
    let counted = if ltb 0 res.dropped then add_u64 n res.dropped else n in
    if not res.enqueued && (res.dropped == 0) then add_u64 counted 1 else counted

-- What a call of `write` comes to: it returns, or its thread is asleep in the queue.
pub data Written (A : Type 0) : Type 0 where
  wrote blocked : AsyncSink A → Written A

module _ {A : Type 0} where
  -- The constructor; `none` is its exception for a null sink.
  pub create : Bool → ℕ → OverflowPolicy → ℕ → Option (AsyncSink A)
  create wrapped capacity policy max_batch =
      if not wrapped
      then none
      else some (record {
        queue = new_queue (if capacity == 0 then 1 else capacity) policy;
        max_batch = if max_batch == 0 then 1 else max_batch;
        stop_requested = false;
        flush_request_gen = 0;
        flush_done_gen = 0;
        dropped_records_count = 0;
        sink_failures_count = 0;
        phase = waiting;
        last_seen_flush_gen = 0;
        calls = [];
        kicking = 0;
      })

  -- `request_stop_`
  pub request_stop_once : AsyncSink A → AsyncSink A
  request_stop_once s =
      if s.stop_requested
      then s
      else record s { stop_requested = true; queue = kick_for_flush (request_stop s.queue) }

  pub submit : AsyncSink A → A → Written A
  unfolding count_drops
  submit s r = elim (enqueue s.queue r) [
    | returns res q ↦
        wrote
          (record s { queue = q; dropped_records_count = count_drops res s.dropped_records_count })
    | sleeps q ↦ blocked (record s { queue = q })
  ]

  -- `flush`, up to the value of `gen`
  pub request_flush : AsyncSink A → ℕ × AsyncSink A
  request_flush s =
      let gen = add_u64 s.flush_request_gen 1 in
      (gen, record s { flush_request_gen = gen; kicking = s.kicking + 1 })

  -- `flush`, the kick
  pub kick : AsyncSink A → AsyncSink A
  kick s = record s { queue = kick_for_flush s.queue; kicking = s.kicking - 1 }

  -- `flush`, the test of its wait: the call returns once it holds.
  pub flush_returns : AsyncSink A → ℕ → Bool
  flush_returns s gen = leb gen s.flush_done_gen

  -- `dequeue_batch` into the empty vector `batch`; `found` and `drained` say where the worker goes.
  pub take_batch : (List A → Phase A) → Phase A → AsyncSink A → Option (AsyncSink A)
  take_batch found drained s = elim (dequeue_batch s.queue [] s.max_batch) [
    | some (n, batch, q) ↦
        some (record s { queue = q; phase = if ltb 0 n then found batch else drained })
    | none ↦ none
  ]

  -- `wait_for_work` and the test for the end of the loop; asleep, the worker does nothing.
  pub wait_round : AsyncSink A → AsyncSink A
  wait_round s =
      if s.queue.consumer_asleep
      then s
      else let (passed, q) = wait_for_work s.queue in
        record s {
          queue = q;
          phase =
              if passed
              then (if q.stop_requested && not (has_items_unlocked q)
                  then final_draining
                  else draining)
              else waiting;
        }

-- Whether the wrapped sink throws at a call, given the calls that it has received before.
module _ {A : Type 0} (throws : List (SinkCall A) → SinkCall A → Bool) where
  -- A call of the wrapped sink in its `try` block.
  pub call_wrapped : AsyncSink A → SinkCall A → AsyncSink A
  call_wrapped s c = record s {
    calls = s.calls ++ (c ∷ []);
    sink_failures_count =
        if throws s.calls c then add_u64 s.sink_failures_count 1 else s.sink_failures_count;
  }

  -- One step of the worker in the given phase; `none` is a read of a slot that holds no record.
  pub work_in : Phase A → AsyncSink A → Option (AsyncSink A)
  work_in waiting s = some (wait_round s)
  work_in draining s = take_batch writing checking s
  work_in (writing []) s = some (record s { phase = draining })
  work_in (writing (r ∷ rs)) s = some (record (call_wrapped s (write r)) { phase = writing rs })
  work_in checking s =
      let want = s.flush_request_gen in
      some (record s { phase = if want == s.last_seen_flush_gen then waiting else flushing want })
  work_in (flushing want) s = some (record (call_wrapped s flush) { phase = publishing want })
  work_in (publishing want) s =
      some (record s { last_seen_flush_gen = want; flush_done_gen = want; phase = waiting })
  work_in final_draining s = take_batch final_writing final_flushing s
  work_in (final_writing []) s = some (record s { phase = final_draining })
  work_in (final_writing (r ∷ rs)) s =
      some (record (call_wrapped s (write r)) { phase = final_writing rs })
  work_in final_flushing s = some (record (call_wrapped s flush) { phase = final_checking })
  work_in final_checking s = some (record s { phase = final_publishing s.flush_request_gen })
  work_in (final_publishing want) s = some (record s { flush_done_gen = want; phase = finished })
  work_in finished s = some s

  -- `worker_loop_`, one step
  pub work : AsyncSink A → Option (AsyncSink A)
  unfolding work_in
  work s = work_in s.phase s
