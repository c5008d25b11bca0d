-- ===== src/Async/FlushRace.antt =====
-- A flush can return before a record that was written ahead of it is passed on: the worker loads
-- the flush request after it has seen the queue empty, and does not look at the queue again.
use sim_logger.Prelude.{
  ℕ, ◌+◌, ◌<◌, ◌-◌, Bool, true, false, List, [], ◌∷◌, ◌++◌, some, ◌≡◌, refl, ◌∙◌, ap, arith, ltb,
  ◌==◌, append-nil,
}
use sim_logger.Queue.{Queue, push_unlocked, push_and_notify, enqueue, kick_for_flush}
use sim_logger.Queue.Inv.{Holds, flags-Holds, push-Holds}
use sim_logger.Async.{
  AsyncSink, SinkCall, flush, waiting, checking, flushing, add_u64, u64_mod, submit, count_drops,
  request_flush, kick, flush_returns, work, call_wrapped,
}
use sim_logger.Async.Books.{delivered, delivered-append}
use sim_logger.Async.Schedule.{Event, writes, requests_flush, kicks, works, step, run, run-cons}

enqueue_room :
    {A : Type 0} (q : Queue A) (r : A)
    → q.stop_requested ≡ false
    → q.count < q.capacity
    → enqueue q r ≡ push_and_notify q r 0
unfolding enqueue
enqueue_room q r running room = ground arith

next_gen : (g : ℕ) → g < u64_mod → (add_u64 g 1 == g) ≡ false
next_gen g h = ground arith

some_kick : (k : ℕ) → ltb 0 (k + 1) ≡ true
some_kick k = ground arith

module _ {A : Type 0} (throws : List (SinkCall A) → SinkCall A → Bool) where
  write_step :
      (s : AsyncSink A) (r : A)
      → s.queue.stop_requested ≡ false
      → s.queue.count < s.queue.capacity
      → step throws s (writes r)
        ≡ some (record s { queue = record (push_unlocked s.queue r) { consumer_asleep = false } })
  unfolding step submit push_and_notify count_drops
  write_step s r running room = rw (enqueue_room s.queue r running room, submit)

  request_step :
      (s : AsyncSink A)
      → step throws s requests_flush
        ≡ some (record s {
          flush_request_gen = add_u64 s.flush_request_gen 1;
          kicking = s.kicking + 1;
        })
  unfolding step request_flush
  request_step s = refl

  kick_step :
      (s : AsyncSink A) (k : ℕ)
      → step throws (record s { kicking = k + 1 }) kicks
        ≡ some (record s { queue = kick_for_flush s.queue; kicking = k + 1 - 1 })
  unfolding step kick
  kick_step s k = rw (some_kick k)

  load_step :
      (s : AsyncSink A) (g : ℕ)
      → g < u64_mod
      → step throws
          (record s { phase = checking; flush_request_gen = add_u64 g 1; last_seen_flush_gen = g })
          works
        ≡ some (record s {
          phase = flushing (add_u64 g 1);
          flush_request_gen = add_u64 g 1;
          last_seen_flush_gen = g;
        })
  unfolding step work
  load_step s g h = rw (next_gen g h)

  flush_steps :
      (s : AsyncSink A) (want : ℕ)
      → run throws (record s { phase = flushing want }) (works ∷ works ∷ [])
        ≡ some (record (call_wrapped throws (record s { phase = flushing want }) flush) {
          phase = waiting;
          last_seen_flush_gen = want;
          flush_done_gen = want;
        })
  unfolding run step work call_wrapped
  flush_steps s want = refl

  -- The sink behind the write, the request and the kick, with the worker where it was.
  abbrev asked : AsyncSink A → A → AsyncSink A
  asked s r = record s {
    queue = kick_for_flush (record (push_unlocked s.queue r) { consumer_asleep = false });
    flush_request_gen = add_u64 s.flush_request_gen 1;
    last_seen_flush_gen = s.flush_request_gen;
    kicking = s.kicking + 1 - 1;
  }

  abbrev served : AsyncSink A → A → AsyncSink A
  served s r =
      let gen = add_u64 s.flush_request_gen 1 in
      record (call_wrapped throws (asked s r) flush) {
        phase = waiting;
        last_seen_flush_gen = gen;
        flush_done_gen = gen;
      }

  misses :
      (s : AsyncSink A) (r : A) (xs : List A)
      → Holds s.queue xs
      → s.queue.stop_requested ≡ false
      → s.queue.count < s.queue.capacity
      → s.flush_request_gen < u64_mod
      → let start = record s { phase = checking; last_seen_flush_gen = s.flush_request_gen } in
        (s' : AsyncSink A) × (run throws start
            (writes r ∷ requests_flush ∷ kicks ∷ works ∷ works ∷ works ∷ [])
          ≡ some s')
        × (flush_returns s' (request_flush start).0 ≡ true)
        × Holds s'.queue (xs ++ (r ∷ []))
        × (delivered s'.calls ≡ delivered s.calls)
  unfolding request_flush flush_returns call_wrapped kick_for_flush push_unlocked
  misses s r xs h running room small =
      let g = s.flush_request_gen in
      let queued = record (push_unlocked s.queue r) { consumer_asleep = false } in
      let start = record s { phase = checking; last_seen_flush_gen = g } in
      let written = record start { queue = queued } in
      (
        served s r,
        run-cons throws _ _ _ (write_step start r running room) (
            run-cons throws _ _ _ (request_step written) (
              run-cons throws _ _ _
                (kick_step (record written { flush_request_gen = add_u64 g 1 }) s.kicking)
                (run-cons throws _ _ _ (load_step (asked s r) g small)
                  (flush_steps (asked s r) (add_u64 g 1))))),
        ground arith,
        flags-Holds _ _ s.queue.stop_requested true false s.queue.producers_asleep
            (push-Holds s.queue xs r h room),
        rw (delivered-append s.calls (flush ∷ [])) (append-nil (delivered s.calls)),
      )

  -- While the worker stands between its last look at the queue and its load of the request, with no
  -- flush outstanding, let a producer write a record that finds room and then flush. The worker's
  -- next three steps let that flush return, and the record is still in the queue behind those that
  -- were there: the wrapped sink has been flushed, and has received no record since.
  pub flush_misses_write :
      (s : AsyncSink A) (r : A) (xs : List A)
      → Holds s.queue xs
      → s.queue.stop_requested ≡ false
      → s.queue.count < s.queue.capacity
      → s.flush_request_gen < u64_mod
      → s.phase ≡ checking
      → s.last_seen_flush_gen ≡ s.flush_request_gen
      → (s' : AsyncSink A) × (run throws s
            (writes r ∷ requests_flush ∷ kicks ∷ works ∷ works ∷ works ∷ [])
          ≡ some s')
        × (flush_returns s' (request_flush s).0 ≡ true)
        × Holds s'.queue (xs ++ (r ∷ []))
        × (delivered s'.calls ≡ delivered s.calls)
  unfolding request_flush
  flush_misses_write s r xs h running room small e l =
      let (s', ran, returns, holds, same) = misses s r xs h running room small in
      (s', ap (λ t. run throws t schedule) here ∙ ran, returns, holds, same)
    where
      schedule : List (Event A)
      schedule = writes r ∷ requests_flush ∷ kicks ∷ works ∷ works ∷ works ∷ []

      here : s ≡ record s { phase = checking; last_seen_flush_gen = s.flush_request_gen }
      here = λ i. record s { phase = e i; last_seen_flush_gen = l i }
