-- ===== src/Async/Accounts.antt =====
-- No record given to an asynchronous sink is lost without being counted, in any interleaving.
use mathlib.Core.Option.{some-injective}
use native.Mathlib.Nat.{add_assoc, add-zero, zero-add}
use sim_logger.Prelude.{
  Option, ◌%◌, ℕ, ◌+◌, ◌<◌, Bool, true, false, List, [], ◌∷◌, ◌++◌, some, ◌≡◌, refl, arith,
  append_assoc, append-nil, ◌==◌, subst, if_both, if◌then◌else◌, ltb,
}
use sim_logger.Queue.{OverflowPolicy, size_mod, new_queue, enqueue, request_stop, kick_for_flush}
use sim_logger.Queue.Inv.{flags-Holds}
use sim_logger.Queue.Refine.{new-Represents}
use sim_logger.Queue.Effects.{enqueue-Effect}
use sim_logger.Queue.Fifo.{new_fifo}
use sim_logger.Queue.Calls
use sim_logger.Queue.Calls.{stops, kicks}
use sim_logger.Queue.Wakeups.{new-NoLostWakeup, step-NoLostWakeup}
use sim_logger.Async.{
  u64_mod, AsyncSink, SinkCall, create, request_stop_once, request_flush, kick, work,
}
use sim_logger.Async.Totals.{Totals-none}
use sim_logger.Async.Books.{Books, Books-move, submit-Books}
use sim_logger.Async.Failures.{failures, failures_counted}
use sim_logger.Async.Schedule
use sim_logger.Async.Schedule.{
  Event, writes, requests_flush, works, step, run, taken_in, returned, all_taken_in, all_returned,
}
use sim_logger.Async.Worker.{Worked, work_in-Worked}

module _ {A : Type 0} where
  Books-nothing :
      (s : AsyncSink A) (taken : List A) (n : ℕ) → Books s taken n → Books s (taken ++ []) (n + 0)
  Books-nothing s taken n b = rw (append-nil, add-zero) b

  pub new-Books :
      (wrapped : Bool) (capacity : ℕ) (policy : OverflowPolicy) (max_batch : ℕ) (s : AsyncSink A)
      → capacity < size_mod
      → create wrapped capacity policy max_batch ≡ some s
      → Books s [] 0
  unfolding create new_fifo
  new-Books false capacity policy max_batch s small e = cc
  new-Books true capacity policy max_batch s small e =
      subst (λ s'. Books s' [] 0) (some-injective _ _ e)
        (record {
          items = [];
          holds = (new-Represents (if capacity == 0 then 1 else capacity) policy sized).holds;
          awake = new-NoLostWakeup (if capacity == 0 then 1 else capacity) policy;
          batched = ground arith;
          totals = Totals-none (new_queue (if capacity == 0 then 1 else capacity) policy).policy;
        })
    where
      sized : (if capacity == 0 then 1 else capacity) < size_mod
      sized = ground arith

  stop-Books :
      (s : AsyncSink A) (taken : List A) (n : ℕ)
      → Books s taken n
      → Books (request_stop_once s) taken n
  unfolding request_stop_once Calls.step request_stop kick_for_flush
  stop-Books s taken n b =
      if_both (λ s'. Books s' taken n) s.stop_requested b
        (Books-move s _ b b.items (flags-Holds s.queue b.items true true false 0 b.holds)
          (step-NoLostWakeup (request_stop s.queue) b.items kicks _ _
            (flags-Holds s.queue b.items true s.queue.flush_kick false 0 b.holds)
            (step-NoLostWakeup s.queue b.items stops _ _ b.holds b.awake refl) refl)
          refl refl refl refl)

  kick-Books : (s : AsyncSink A) (taken : List A) (n : ℕ) → Books s taken n → Books (kick s) taken n
  unfolding kick Calls.step kick_for_flush
  kick-Books s taken n b =
      Books-move s _ b b.items
        (flags-Holds s.queue b.items s.queue.stop_requested true false s.queue.producers_asleep
          b.holds)
        (step-NoLostWakeup s.queue b.items kicks _ _ b.holds b.awake refl) refl refl refl refl

module _ {A : Type 0} (throws : List (SinkCall A) → SinkCall A → Bool) where
  pub step-Books :
      (s : AsyncSink A) (e : Event A) (taken : List A) (n : ℕ)
      → Books s taken n
      → Worked (step throws s e) (taken ++ taken_in s e) (n + returned s e)
  unfolding step taken_in returned
  step-Books s (writes r) taken n b = record {
    rest = _;
    result = refl;
    books =
        submit-Books s r taken n b (enqueue s.queue r) refl
          (enqueue-Effect s.queue b.items r b.holds b.awake);
  }
  step-Books s requests_flush taken n b = record {
    rest = _;
    result = refl;
    books =
        unfold request_flush in
        Books-nothing _ taken n (Books-move s _ b b.items b.holds b.awake refl refl refl refl);
  }
  step-Books s Schedule.kicks taken n b = record {
    rest = _;
    result = refl;
    books =
        Books-nothing _ taken n
          (if_both (λ s'. Books s' taken n) (ltb 0 s.kicking) (kick-Books s taken n b) b);
  }
  step-Books s works taken n b =
      let w = work_in-Worked throws s.phase s refl b in
      record {
        rest = w.rest;
        result = unfold work in w.result;
        books = Books-nothing w.rest taken n w.books;
      }
  step-Books s Schedule.stops taken n b = record {
    rest = _;
    result = refl;
    books = Books-nothing _ taken n (stop-Books s taken n b);
  }

  run-Books :
      (es : List (Event A)) (s : AsyncSink A) (taken : List A) (n : ℕ)
      → Books s taken n
      → Worked (run throws s es) (taken ++ all_taken_in throws s es) (n + all_returned throws s es)
  unfolding run all_taken_in all_returned
  run-Books [] s taken n b = record { rest = s; result = refl; books = Books-nothing s taken n b }
  run-Books (e ∷ es) s taken n b =
      let a = step-Books s e taken n b in
      let w = run-Books es a.rest (taken ++ taken_in s e) (n + returned s e) a.books in
      record {
        rest = w.rest;
        result = rw (a.result, run) w.result;
        books = rw (a.result, all_taken_in, all_returned) (rw (append_assoc, add_assoc) at w.books);
      }

  -- What a schedule comes to: the sink that it leaves, with its books and its count of failures.
  pub record Ledger (r : Option (AsyncSink A)) (taken : List A) (n : ℕ) : Type 0 where
    pub rest : AsyncSink A
    pub result : r ≡ some rest
    pub books : Books rest taken n
    pub tallied : rest.sink_failures_count ≡ failures throws [] rest.calls % u64_mod

  -- Every schedule of writes, flushes, worker steps and a stop runs from a new sink without a read of
  -- an empty slot, and leaves it with its books in order: what the wrapped sink has been given, then
  -- what the worker holds, then what the queue holds, is a sublist of the records taken in, in their
  -- order, and is all of them unless the policy is to drop the oldest; the writes that returned
  -- number these records and the dropped ones, whose number is `dropped_records_count` modulo 2^64;
  -- the queue's buffer holds just the records queued, and no thread of it has missed a wake-up; and
  -- `sink_failures_count` is the number of the wrapped sink's calls that threw, modulo 2^64.
  pub run_accounted :
      (wrapped : Bool) (capacity : ℕ) (policy : OverflowPolicy) (max_batch : ℕ) (s : AsyncSink A)
      (es : List (Event A))
      → capacity < size_mod
      → create wrapped capacity policy max_batch ≡ some s
      → Ledger (run throws s es) (all_taken_in throws s es) (all_returned throws s es)
  run_accounted wrapped capacity policy max_batch s es small e =
      let w = run-Books es s [] 0 (new-Books wrapped capacity policy max_batch s small e) in
      record {
        rest = w.rest;
        result = w.result;
        books = rw zero-add at w.books;
        tallied = failures_counted throws wrapped capacity policy max_batch s w.rest es e w.result;
      }
