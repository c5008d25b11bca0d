-- ===== src/Async/InLoop.antt =====
-- Until it is stopped, an asynchronous sink keeps its worker in its loop.
use mathlib.Core.Option.{some-injective}
use sim_logger.Prelude.{
  ℕ, Bool, true, false, List, [], ◌∷◌, some, ◌≡◌, refl, sym, ap, ◌∙◌, subst, Bool-cases, inl, inr,
  if◌then◌else◌, if_both, ltb, ◌==◌, length, take,
}
use sim_logger.Queue.{
  Queue, OverflowPolicy, Enqueued, enqueue, wait_for_work, has_work, request_stop, kick_for_flush,
  new_queue,
}
use sim_logger.Queue.Inv.{Holds}
use sim_logger.Queue.Batch.{dequeue_batch-Dequeued}
use sim_logger.Queue.Effects.{Effect, enqueue-Effect, takes, evicts, stopped, overflows, waits}
use sim_logger.Async.{
  AsyncSink, SinkCall, Phase, waiting, draining, writing, checking, flushing, publishing,
  final_draining, final_writing, final_flushing, final_checking, final_publishing, finished, create,
  submit, request_stop_once, request_flush, kick, work, work_in, take_batch, call_wrapped,
  wait_round,
}
use sim_logger.Async.Books.{Books}
use sim_logger.Async.Ending.{is_looping}
use sim_logger.Async.Schedule
use sim_logger.Async.Schedule.{Event, writes, requests_flush, works, step, settle}

module _ {A : Type 0} where
  -- Both flags for a stop agree; without a stop the worker is in its loop, and the request for a
  -- flush that it has last seen is the one that it has last served.
  pub record InLoop (policy : OverflowPolicy) (s : AsyncSink A) : Type 0 where
    pub policy_is : s.queue.policy ≡ policy
    pub in_step : s.queue.stop_requested ≡ s.stop_requested
    pub looping : s.stop_requested ≡ false → is_looping s.phase ≡ true
    pub agreed : s.stop_requested ≡ false → s.last_seen_flush_gen ≡ s.flush_done_gen

  pub create-InLoop :
      (wrapped : Bool) (capacity : ℕ) (policy : OverflowPolicy) (max_batch : ℕ) (s : AsyncSink A)
      → create wrapped capacity policy max_batch ≡ some s
      → InLoop policy s
  unfolding create new_queue is_looping
  create-InLoop false capacity policy max_batch s e = cc
  create-InLoop true capacity policy max_batch s e =
      subst (InLoop policy) (some-injective _ _ e)
        (record { policy_is = refl; in_step = refl; looping = λ _. refl; agreed = λ _. refl })

  module _ {policy : OverflowPolicy} where
    InLoop-queue :
        (s : AsyncSink A) (n : ℕ) (q : Queue A)
        → InLoop policy s
        → q.policy ≡ s.queue.policy
        → q.stop_requested ≡ s.queue.stop_requested
        → InLoop policy (record s { queue = q; dropped_records_count = n })
    InLoop-queue s n q l p e = record {
      policy_is = p ∙ l.policy_is;
      in_step = e ∙ l.in_step;
      looping = l.looping;
      agreed = l.agreed;
    }

    -- A step of the worker that is made in its loop.
    InLoop-move :
        (s s' : AsyncSink A) (p : Phase A)
        → s.phase ≡ p
        → InLoop policy s
        → s'.queue.policy ≡ s.queue.policy
        → s'.queue.stop_requested ≡ s.queue.stop_requested
        → s'.stop_requested ≡ s.stop_requested
        → (is_looping p ≡ true → s.queue.stop_requested ≡ false → is_looping s'.phase ≡ true)
        → (is_looping p ≡ true
            → s.last_seen_flush_gen ≡ s.flush_done_gen
            → s'.last_seen_flush_gen ≡ s'.flush_done_gen)
        → InLoop policy s'
    InLoop-move s s' p here l same_policy same_stop same moves agrees =
        let running : s'.stop_requested ≡ false → is_looping p ≡ true =
          λ r. sym (ap is_looping here) ∙ l.looping (sym same ∙ r) in
        record {
          policy_is = same_policy ∙ l.policy_is;
          in_step = same_stop ∙ l.in_step ∙ sym same;
          looping = λ r. moves (running r) (l.in_step ∙ sym same ∙ r);
          agreed = λ r. agrees (running r) (l.agreed (sym same ∙ r));
        }

    submit-InLoop :
        (s : AsyncSink A) (r : A) (xs : List A) (o : Enqueued A)
        → enqueue s.queue r ≡ o
        → Effect s.queue xs r o
        → InLoop policy s
        → InLoop policy (settle (submit s r))
    unfolding submit
    submit-InLoop s r xs o e (takes q' kept awake holds) l =
        rw (e, submit) (InLoop-queue s _ q' l kept.policy kept.stop)
    submit-InLoop s r xs o e (evicts q' x rest kept awake split oldest holds) l =
        rw (e, submit) (InLoop-queue s _ q' l kept.policy kept.stop)
    submit-InLoop s r xs o e stopped l = rw (e, submit) (InLoop-queue s _ s.queue l refl refl)
    submit-InLoop s r xs o e overflows l = rw (e, submit) (InLoop-queue s _ s.queue l refl refl)
    submit-InLoop s r xs o e (waits q' kept awake holds) l =
        rw (e, submit) (InLoop-queue s _ q' l kept.policy kept.stop)

    stop-InLoop : (s : AsyncSink A) → InLoop policy s → InLoop policy (request_stop_once s)
    unfolding request_stop_once request_stop kick_for_flush
    stop-InLoop s l =
        if_both (InLoop policy) s.stop_requested l
          (record { policy_is = l.policy_is; in_step = refl; looping = λ e. cc; agreed = λ e. cc })

    take_batch-InLoop :
        (found : List A → Phase A) (drained p : Phase A) (s s' : AsyncSink A) (xs : List A)
        → s.phase ≡ p
        → Holds s.queue xs
        → ((rs : List A) → is_looping p ≡ true → is_looping (found rs) ≡ true)
        → (is_looping p ≡ true → is_looping drained ≡ true)
        → take_batch found drained s ≡ some s'
        → InLoop policy s
        → InLoop policy s'
    unfolding take_batch
    take_batch-InLoop found drained p s s' xs here holds f g e l =
        let d = dequeue_batch-Dequeued s.queue xs [] s.max_batch holds in
        let n = length (take s.max_batch xs) in
        let taken : take_batch found drained s
            ≡ some (record s {
              queue = d.rest;
              phase = if ltb 0 n then found (take s.max_batch xs) else drained;
            }) =
          rw (d.result, take_batch) in
        subst (InLoop policy) (some-injective _ _ (sym taken ∙ e)) (
          InLoop-move s _ p here l d.same.policy d.same.stop refl
            (λ r _. elim (Bool-cases (ltb 0 n)) [
              | inl some_taken ↦ rw some_taken (f (take s.max_batch xs) r)
              | inr nothing_taken ↦ rw nothing_taken (g r)
            ])
            (λ _ a. a))

    wait_round-InLoop :
        (s : AsyncSink A) → s.phase ≡ waiting → InLoop policy s → InLoop policy (wait_round s)
    unfolding wait_round wait_for_work is_looping
    wait_round-InLoop s here l =
        if_both (InLoop policy) s.queue.consumer_asleep l (elim (Bool-cases (has_work s.queue)) [
          | inl e ↦ rw e (InLoop-move s _ waiting here l refl refl refl (λ _ r. rw r) (λ _ a. a))
          | inr e ↦ rw e (InLoop-move s _ waiting here l refl refl refl (λ _ _. refl) (λ _ a. a))
        ])

module _ {A : Type 0} (throws : List (SinkCall A) → SinkCall A → Bool)
    {policy : OverflowPolicy} where
  -- A step of the worker that calls no function of the queue.
  plain_step :
      (s s' t : AsyncSink A) (p : Phase A)
      → s.phase ≡ p
      → InLoop policy s
      → some t ≡ some s'
      → t.queue ≡ s.queue
      → t.stop_requested ≡ s.stop_requested
      → (is_looping p ≡ true → is_looping t.phase ≡ true)
      → (is_looping p ≡ true
          → s.last_seen_flush_gen ≡ s.flush_done_gen
          → t.last_seen_flush_gen ≡ t.flush_done_gen)
      → InLoop policy s'
  plain_step s s' t p here l e same_queue same_stop moves agrees =
      subst (InLoop policy) (some-injective t s' e) (
        InLoop-move s t p here l (ap (λ q. q.policy) same_queue)
          (ap (λ q. q.stop_requested) same_queue) same_stop (λ r _. moves r) agrees)

  pub work_in-InLoop :
      (p : Phase A) (s s' : AsyncSink A) (xs : List A)
      → s.phase ≡ p
      → Holds s.queue xs
      → work_in throws p s ≡ some s'
      → InLoop policy s
      → InLoop policy s'
  unfolding work_in call_wrapped is_looping
  work_in-InLoop waiting s s' xs here holds e l =
      subst (InLoop policy) (some-injective _ _ e) (wait_round-InLoop s here l)
  work_in-InLoop draining s s' xs here holds e l =
      take_batch-InLoop writing checking draining s s' xs here holds (λ _ _. refl) (λ _. refl) e l
  work_in-InLoop (writing []) s s' xs here holds e l =
      plain_step s s' _ (writing []) here l e refl refl (λ _. refl) (λ _ a. a)
  work_in-InLoop (writing (r ∷ rs)) s s' xs here holds e l =
      plain_step s s' _ (writing (r ∷ rs)) here l e refl refl (λ _. refl) (λ _ a. a)
  work_in-InLoop checking s s' xs here holds e l =
      plain_step s s' _ checking here l e refl refl
        (λ _. elim (Bool-cases (s.flush_request_gen == s.last_seen_flush_gen)) [
          | inl old ↦ rw old
          | inr new ↦ rw new
        ])
        (λ _ a. a)
  work_in-InLoop (flushing want) s s' xs here holds e l =
      plain_step s s' _ (flushing want) here l e refl refl (λ _. refl) (λ _ a. a)
  work_in-InLoop (publishing want) s s' xs here holds e l =
      plain_step s s' _ (publishing want) here l e refl refl (λ _. refl) (λ _ _. refl)
  work_in-InLoop final_draining s s' xs here holds e l =
      take_batch-InLoop final_writing final_flushing final_draining s s' xs here holds (λ _ r. r)
        (λ r. r) e l
  work_in-InLoop (final_writing []) s s' xs here holds e l =
      plain_step s s' _ (final_writing []) here l e refl refl (λ r. r) (λ _ a. a)
  work_in-InLoop (final_writing (r ∷ rs)) s s' xs here holds e l =
      plain_step s s' _ (final_writing (r ∷ rs)) here l e refl refl (λ r. r) (λ _ a. a)
  work_in-InLoop final_flushing s s' xs here holds e l =
      plain_step s s' _ final_flushing here l e refl refl (λ r. r) (λ _ a. a)
  work_in-InLoop final_checking s s' xs here holds e l =
      plain_step s s' _ final_checking here l e refl refl (λ r. r) (λ _ a. a)
  work_in-InLoop (final_publishing want) s s' xs here holds e l =
      plain_step s s' _ (final_publishing want) here l e refl refl (λ r. r) (λ r _. cc)
  work_in-InLoop finished s s' xs here holds e l = subst (InLoop policy) (some-injective s s' e) l

  pub step-InLoop :
      (s s' : AsyncSink A) (ev : Event A) (taken : List A) (n : ℕ)
      → Books s taken n
      → step throws s ev ≡ some s'
      → InLoop policy s
      → InLoop policy s'
  unfolding step request_flush kick kick_for_flush work
  step-InLoop s s' (writes r) taken n b e l = subst (InLoop policy) (some-injective _ _ e) (
      submit-InLoop s r b.items (enqueue s.queue r) refl
        (enqueue-Effect s.queue b.items r b.holds b.awake) l)
  step-InLoop s s' requests_flush taken n b e l =
      subst (InLoop policy) (some-injective _ _ e) (record {
        policy_is = l.policy_is;
        in_step = l.in_step;
        looping = l.looping;
        agreed = l.agreed;
      })
  step-InLoop s s' Schedule.kicks taken n b e l = subst (InLoop policy) (some-injective _ _ e) (
      if_both (InLoop policy) (ltb 0 s.kicking)
        (record {
          policy_is = l.policy_is;
          in_step = l.in_step;
          looping = l.looping;
          agreed = l.agreed;
        })
        l)
  step-InLoop s s' works taken n b e l = work_in-InLoop s.phase s s' b.items refl b.holds e l
  step-InLoop s s' Schedule.stops taken n b e l =
      subst (InLoop policy) (some-injective _ _ e) (stop-InLoop s l)
