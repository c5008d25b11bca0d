-- ===== src/Async/Reaches.antt =====
-- What the worker of an asynchronous sink comes to when it runs alone.
use sim_logger.Prelude.{
  ℕ, suc, ◌<◌, Bool, true, false, List, [], ◌++◌, some, ◌≡◌, refl, ap, ◌∙◌, arith, subst,
  Bool-cases, inl, inr, if◌then◌else◌, ltb, ◌&&◌, not, length, length-drop, length-take,
  eq_nil_of_length, take, drop, take-append-drop, replicate,
}
use sim_logger.Queue.{Queue, has_work, has_items_unlocked, wait_for_work}
use sim_logger.Queue.Inv.{Holds}
use sim_logger.Queue.Batch.{dequeue_batch-Dequeued}
use sim_logger.Async.{
  AsyncSink, SinkCall, Phase, draining, final_draining, work, work_in, take_batch, wait_round,
}
use sim_logger.Async.Schedule.{works, step, run, run-cons}

module _ {A : Type 0} (throws : List (SinkCall A) → SinkCall A → Bool) where
  -- After some number of steps of the worker alone the goal is met.
  pub record Reaches (goal : AsyncSink A → Type 0) (s : AsyncSink A) : Type 0 where
    pub steps : ℕ
    pub rest : AsyncSink A
    pub ran : run throws s (replicate steps works) ≡ some rest
    pub reached : goal rest

  module _ {goal : AsyncSink A → Type 0} where
    pub now-Reaches : (s : AsyncSink A) → goal s → Reaches goal s
    unfolding run
    now-Reaches s e = record { steps = 0; rest = s; ran = refl; reached = e }

    pub later-Reaches :
        (s s1 : AsyncSink A) (p : Phase A)
        → s.phase ≡ p
        → work_in throws p s ≡ some s1
        → Reaches goal s1
        → Reaches goal s
    unfolding step work
    later-Reaches s s1 p here moved e = record {
      steps = suc e.steps;
      rest = e.rest;
      ran =
          run-cons throws s works (replicate e.steps works)
            (ap (λ q. work_in throws q s) here ∙ moved) e.ran;
      reached = e.reached;
    }

    -- A step that takes a batch: the queue was empty, or some of its records were taken.
    pub batch-Reaches :
        (found : List A → Phase A) (drained p : Phase A) (s : AsyncSink A) (xs : List A)
        → s.phase ≡ p
        → work_in throws p s ≡ take_batch found drained s
        → Holds s.queue xs
        → 0 < s.max_batch
        → (xs ≡ []
            → (q : Queue A) → Holds q []
            → q.stop_requested ≡ s.queue.stop_requested
            → q.consumer_asleep ≡ s.queue.consumer_asleep
            → Reaches goal (record s { queue = q; phase = drained }))
        → ((q : Queue A) (rs ys : List A)
            → rs ++ ys ≡ xs
            → length ys < length xs
            → Holds q ys
            → q.stop_requested ≡ s.queue.stop_requested
            → q.consumer_asleep ≡ s.queue.consumer_asleep
            → Reaches goal (record s { queue = q; phase = found rs }))
        → Reaches goal s
    unfolding take_batch
    batch-Reaches found drained p s xs here e holds batched k_empty k_found =
        let d = dequeue_batch-Dequeued s.queue xs [] s.max_batch holds in
        let batch = take s.max_batch xs in
        let rest = drop s.max_batch xs in
        let moved : work_in throws p s
            ≡ some (record s {
              queue = d.rest;
              phase = if ltb 0 (length batch) then found batch else drained;
            }) =
          e ∙ rw (d.result, take_batch) in
        elim (Bool-cases (ltb 0 (length batch))) [
          | inl some_taken ↦ later-Reaches s _ p here (rw some_taken at moved) (
              k_found d.rest batch rest (take-append-drop s.max_batch xs)
                (ground (
                  arith,
                  some_taken,
                  batched,
                  length-take s.max_batch xs,
                  length-drop s.max_batch xs,
                ))
                d.holds d.same.stop d.same.consumer)
          | inr nothing_taken ↦
              let none_left : length xs ≡ 0 =
                ground (arith, nothing_taken, batched, length-take s.max_batch xs) in
              let empty_rest =
                eq_nil_of_length rest (omega (arith, none_left, length-drop s.max_batch xs)) in
              later-Reaches s _ p here (rw nothing_taken at moved) (
                k_empty (eq_nil_of_length xs none_left) d.rest
                  (subst (λ ys. Holds d.rest ys) empty_rest d.holds) d.same.stop d.same.consumer)
        ]

  -- A round of `wait_for_work` that ends at once.
  pub wakes :
      (s : AsyncSink A)
      → s.queue.consumer_asleep ≡ false
      → has_work s.queue ≡ true
      → wait_round s ≡ record s {
        queue = record s.queue { flush_kick = false };
        phase =
            if s.queue.stop_requested && not (has_items_unlocked s.queue)
            then final_draining
            else draining;
      }
  unfolding wait_round wait_for_work has_items_unlocked
  wakes s awake busy = rw (awake, wait_round, busy)
