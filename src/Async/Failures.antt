-- ===== src/Async/Failures.antt =====
-- The counter of an asynchronous sink's failures counts the calls of the wrapped sink that threw.
use mathlib.Core.Option.{some-injective}
use sim_logger.Prelude.{
  ℕ, ◌+◌, ◌%◌, Bool, true, false, List, [], ◌∷◌, ◌++◌, some, ◌≡◌, refl, sym, ap, ◌∙◌, arith, subst,
  Bool-cases, Option-cases, inl, inr, if◌then◌else◌, if_both, ltb, append-nil, append_assoc,
}
use sim_logger.Queue.{OverflowPolicy, Enqueued, returns, sleeps, enqueue, dequeue_batch}
use sim_logger.Async.{
  AsyncSink, SinkCall, write, flush, Phase, waiting, draining, writing, checking, flushing,
  publishing, final_draining, final_writing, final_flushing, final_checking, final_publishing,
  finished, u64_mod, create, submit, request_stop_once, request_flush, kick, work, work_in,
  take_batch, call_wrapped, wait_round,
}
use sim_logger.Async.Schedule
use sim_logger.Async.Schedule.{Event, writes, requests_flush, works, step, run, settle}

module _ {A : Type 0} (throws : List (SinkCall A) → SinkCall A → Bool) where
  -- How many of the calls throw, behind those of `before`.
  unfoldable pub failures : List (SinkCall A) → List (SinkCall A) → ℕ
  failures before [] = 0
  failures before (c ∷ cs) =
      let rest = failures (before ++ (c ∷ [])) cs in if throws before c then rest + 1 else rest

  -- The counter is their number modulo 2^64.
  Tallied : AsyncSink A → Type 0
  Tallied s = s.sink_failures_count ≡ failures [] s.calls % u64_mod

  failures-snoc :
      (before cs : List (SinkCall A)) (c : SinkCall A)
      → failures before (cs ++ (c ∷ []))
        ≡ (if throws (before ++ cs) c then failures before cs + 1 else failures before cs)
  unfolding failures
  failures-snoc before [] c = rw (append-nil before)
  failures-snoc before (b ∷ cs) c =
      rw (failures-snoc (before ++ (b ∷ [])) cs c, append_assoc before (b ∷ []) cs)
        (elim (Bool-cases (throws before b)) [
          | inl x ↦ elim (Bool-cases (throws (before ++ (b ∷ cs)) c)) [
            | inl y ↦ rw (x, y)
            | inr y ↦ rw (x, y)
          ]
          | inr x ↦ elim (Bool-cases (throws (before ++ (b ∷ cs)) c)) [
            | inl y ↦ rw (x, y)
            | inr y ↦ rw (x, y)
          ]
        ])

  call_wrapped-Tallied :
      (s : AsyncSink A) (c : SinkCall A) → Tallied s → Tallied (call_wrapped throws s c)
  unfolding call_wrapped Tallied
  call_wrapped-Tallied s c t = elim (Bool-cases (throws s.calls c)) [
    | inl x ↦ rw (failures-snoc [] s.calls c, x) (omega (arith, t))
    | inr x ↦ rw (failures-snoc [] s.calls c, x) t
  ]

  same-Tallied :
      (s s' : AsyncSink A)
      → s'.calls ≡ s.calls
      → s'.sink_failures_count ≡ s.sink_failures_count
      → Tallied s
      → Tallied s'
  unfolding Tallied
  same-Tallied s s' e f t = f ∙ t ∙ ap (λ cs. failures [] cs % u64_mod) (sym e)

  take_batch-Tallied :
      (found : List A → Phase A) (drained : Phase A) (s s' : AsyncSink A)
      → take_batch found drained s ≡ some s'
      → Tallied s
      → Tallied s'
  unfolding take_batch
  take_batch-Tallied found drained s s' e t =
      elim (Option-cases (dequeue_batch s.queue [] s.max_batch)) [
        | inl none_there ↦ cc (rw (none_there, take_batch) at e)
        | inr ((n, batch, q), got) ↦
            subst Tallied (some-injective _ s' (rw (got, take_batch) at e)) (
              same-Tallied s
                (record s { queue = q; phase = if ltb 0 n then found batch else drained }) refl refl
                t)
      ]

  wait_round-Tallied : (s : AsyncSink A) → Tallied s → Tallied (wait_round s)
  unfolding wait_round
  wait_round-Tallied s t = if_both Tallied s.queue.consumer_asleep t (same-Tallied s _ refl refl t)

  work_in-Tallied :
      (p : Phase A) (s s' : AsyncSink A) → work_in throws p s ≡ some s' → Tallied s → Tallied s'
  unfolding work_in
  work_in-Tallied waiting s s' e t = subst Tallied (some-injective _ s' e) (wait_round-Tallied s t)
  work_in-Tallied draining s s' e t = take_batch-Tallied writing checking s s' e t
  work_in-Tallied (writing []) s s' e t =
      subst Tallied (some-injective _ s' e) (same-Tallied s _ refl refl t)
  work_in-Tallied (writing (r ∷ rs)) s s' e t = subst Tallied (some-injective _ s' e) (
      same-Tallied (call_wrapped throws s (write r)) _ refl refl
        (call_wrapped-Tallied s (write r) t))
  work_in-Tallied checking s s' e t =
      subst Tallied (some-injective _ s' e) (same-Tallied s _ refl refl t)
  work_in-Tallied (flushing want) s s' e t =
      subst Tallied (some-injective _ s' e)
        (same-Tallied (call_wrapped throws s flush) _ refl refl (call_wrapped-Tallied s flush t))
  work_in-Tallied (publishing want) s s' e t =
      subst Tallied (some-injective _ s' e) (same-Tallied s _ refl refl t)
  work_in-Tallied final_draining s s' e t = take_batch-Tallied final_writing final_flushing s s' e t
  work_in-Tallied (final_writing []) s s' e t =
      subst Tallied (some-injective _ s' e) (same-Tallied s _ refl refl t)
  work_in-Tallied (final_writing (r ∷ rs)) s s' e t = subst Tallied (some-injective _ s' e) (
      same-Tallied (call_wrapped throws s (write r)) _ refl refl
        (call_wrapped-Tallied s (write r) t))
  work_in-Tallied final_flushing s s' e t =
      subst Tallied (some-injective _ s' e)
        (same-Tallied (call_wrapped throws s flush) _ refl refl (call_wrapped-Tallied s flush t))
  work_in-Tallied final_checking s s' e t =
      subst Tallied (some-injective _ s' e) (same-Tallied s _ refl refl t)
  work_in-Tallied (final_publishing want) s s' e t =
      subst Tallied (some-injective _ s' e) (same-Tallied s _ refl refl t)
  work_in-Tallied finished s s' e t = subst Tallied (some-injective s s' e) t

  submit-Tallied :
      (s : AsyncSink A) (r : A) (o : Enqueued A)
      → enqueue s.queue r ≡ o
      → Tallied s
      → Tallied (settle (submit s r))
  unfolding submit
  submit-Tallied s r (returns res q) e t = rw (e, submit) (same-Tallied s _ refl refl t)
  submit-Tallied s r (sleeps q) e t = rw (e, submit) (same-Tallied s _ refl refl t)

  step-Tallied :
      (s s' : AsyncSink A) (ev : Event A) → step throws s ev ≡ some s' → Tallied s → Tallied s'
  unfolding step request_flush kick request_stop_once work
  step-Tallied s s' (writes r) e t =
      subst Tallied (some-injective _ s' e) (submit-Tallied s r (enqueue s.queue r) refl t)
  step-Tallied s s' requests_flush e t =
      subst Tallied (some-injective _ s' e) (same-Tallied s _ refl refl t)
  step-Tallied s s' Schedule.kicks e t =
      subst Tallied (some-injective _ s' e)
        (if_both Tallied (ltb 0 s.kicking) (same-Tallied s _ refl refl t) t)
  step-Tallied s s' works e t = work_in-Tallied s.phase s s' e t
  step-Tallied s s' Schedule.stops e t =
      subst Tallied (some-injective _ s' e)
        (if_both Tallied s.stop_requested t (same-Tallied s _ refl refl t))

  run-Tallied :
      (es : List (Event A)) (s s' : AsyncSink A)
      → run throws s es ≡ some s'
      → Tallied s
      → Tallied s'
  unfolding run
  run-Tallied [] s s' e t = subst Tallied (some-injective s s' e) t
  run-Tallied (ev ∷ es) s s' e t = elim (Option-cases (step throws s ev)) [
    | inl stuck ↦ cc (rw (stuck, run) at e)
    | inr (s1, moved) ↦ run-Tallied es s1 s' (rw (moved, run) at e) (step-Tallied s s1 ev moved t)
  ]

  pub failures-cons :
      (before cs : List (SinkCall A)) (c : SinkCall A) (b : Bool)
      → throws before c ≡ b
      → failures before (c ∷ cs)
        ≡ (if b then failures (before ++ (c ∷ [])) cs + 1 else failures (before ++ (c ∷ [])) cs)
  unfolding failures
  failures-cons before cs c b e = rw e

  create-Tallied :
      (wrapped : Bool) (capacity : ℕ) (policy : OverflowPolicy) (max_batch : ℕ) (s : AsyncSink A)
      → create wrapped capacity policy max_batch ≡ some s
      → Tallied s
  unfolding create Tallied failures
  create-Tallied false capacity policy max_batch s e = cc
  create-Tallied true capacity policy max_batch s e =
      subst (λ k. k.sink_failures_count ≡ failures [] k.calls % u64_mod) (some-injective _ s e) refl

  -- The failures counted after any schedule from a new sink
  pub failures_counted :
      (wrapped : Bool) (capacity : ℕ) (policy : OverflowPolicy) (max_batch : ℕ) (s s' : AsyncSink A)
      (es : List (Event A))
      → create wrapped capacity policy max_batch ≡ some s
      → run throws s es ≡ some s'
      → s'.sink_failures_count ≡ failures [] s'.calls % u64_mod
  unfolding Tallied
  failures_counted wrapped capacity policy max_batch s s' es made ran =
      run-Tallied es s s' ran (create-Tallied wrapped capacity policy max_batch s made)
