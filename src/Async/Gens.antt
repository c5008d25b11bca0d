-- ===== src/Async/Gens.antt =====
-- The generations of flushes under the steps of every thread.
use mathlib.Core.Option.{some-injective}
use sim_logger.Prelude.{
  ℕ, ◌+◌, ◌≤◌, ◌<◌, Bool, true, false, List, [], ◌∷◌, ◌++◌, some, ◌≡◌, refl, ap, arith, subst, ◌⊎◌,
  inl, inr, if_both, ltb, length,
}
use sim_logger.Queue.{OverflowPolicy, Enqueued, returns, sleeps, enqueue}
use sim_logger.Async.{
  AsyncSink, SinkCall, u64_mod, add_u64, create, submit, request_stop_once, request_flush, kick,
  work,
}
use sim_logger.Async.Accounts.{step-Books}
use sim_logger.Async.Books.{Books}
use sim_logger.Async.Moves.{wanted, work_in-Moved}
use sim_logger.Async.Schedule
use sim_logger.Async.Schedule.{
  Event, writes, requests_flush, works, step, run, taken_in, returned, all_taken_in, settle,
}

module _ {A : Type 0} where
  -- A step of another thread than the worker.
  pub record Stays (s s' : AsyncSink A) : Type 0 where
    pub calls : s'.calls ≡ s.calls
    pub phase : s'.phase ≡ s.phase
    pub done : s'.flush_done_gen ≡ s.flush_done_gen
    pub asked :
        (s'.flush_request_gen ≡ s.flush_request_gen)
        ⊎ (s'.flush_request_gen ≡ add_u64 s.flush_request_gen 1)

  submit-Stays :
      (s : AsyncSink A) (r : A) (o : Enqueued A)
      → enqueue s.queue r ≡ o
      → Stays s (settle (submit s r))
  unfolding submit
  submit-Stays s r (returns res q) e =
      rw (e, submit) (record { calls = refl; phase = refl; done = refl; asked = inl refl })
  submit-Stays s r (sleeps q) e =
      rw (e, submit) (record { calls = refl; phase = refl; done = refl; asked = inl refl })

module _ {A : Type 0} (throws : List (SinkCall A) → SinkCall A → Bool) where
  pub step_cases :
      (s s' : AsyncSink A) (ev : Event A)
      → step throws s ev ≡ some s'
      → (work throws s ≡ some s') ⊎ Stays s s'
  unfolding step request_flush kick request_stop_once
  step_cases s s' (writes r) e =
      inr (subst (Stays s) (some-injective _ _ e) (submit-Stays s r (enqueue s.queue r) refl))
  step_cases s s' requests_flush e = inr (
      subst (Stays s) (some-injective _ _ e)
        (record { calls = refl; phase = refl; done = refl; asked = inr refl }))
  step_cases s s' Schedule.kicks e = inr (
      subst (Stays s) (some-injective _ _ e) (
        if_both (Stays s) (ltb 0 s.kicking)
          (record { calls = refl; phase = refl; done = refl; asked = inl refl })
          (record { calls = refl; phase = refl; done = refl; asked = inl refl })))
  step_cases s s' works e = inl e
  step_cases s s' Schedule.stops e = inr (
      subst (Stays s) (some-injective _ _ e) (
        if_both (Stays s) s.stop_requested
          (record { calls = refl; phase = refl; done = refl; asked = inl refl })
          (record { calls = refl; phase = refl; done = refl; asked = inl refl })))

  -- The generations after `n` events
  pub record Gens (n : ℕ) (s : AsyncSink A) : Type 0 where
    pub few : s.flush_request_gen ≤ n
    pub done : s.flush_done_gen ≤ s.flush_request_gen
    pub wants : wanted s.phase ≤ s.flush_request_gen

  pub create-Gens :
      (wrapped : Bool) (capacity : ℕ) (policy : OverflowPolicy) (max_batch : ℕ) (s : AsyncSink A)
      → create wrapped capacity policy max_batch ≡ some s
      → Gens 0 s
  unfolding create wanted
  create-Gens false capacity policy max_batch s e = cc
  create-Gens true capacity policy max_batch s e =
      subst (Gens 0) (some-injective _ _ e)
        (record { few = omega arith; done = omega arith; wants = omega arith })

  step-Gens :
      (s s' : AsyncSink A) (ev : Event A) (taken : List A) (m n : ℕ)
      → Books s taken m
      → step throws s ev ≡ some s'
      → n + 1 < u64_mod
      → Gens n s
      → Gens (n + 1) s'
  unfolding work
  step-Gens s s' ev taken m n b e small g = elim (step_cases s s' ev e) [
    | inl w ↦
        let d = work_in-Moved throws s.phase s s' b.items refl b.holds b.batched w in
        let (done, wants) = d.gens g.done g.wants in
        record {
          few = omega (arith, d.asked, g.few);
          done = omega (arith, done, d.asked);
          wants = omega (arith, wants, d.asked);
        }
    | inr t ↦
        let w : wanted s'.phase ≡ wanted s.phase = ap wanted t.phase in
        elim t.asked [
          | inl same ↦ record {
            few = omega (arith, same, g.few);
            done = omega (arith, t.done, g.done, same);
            wants = omega (arith, w, g.wants, same);
          }
          | inr one_more ↦ record {
            few = ground (arith, one_more, g.few, small);
            done = ground (arith, one_more, g.few, t.done, g.done, small);
            wants = ground (arith, one_more, g.few, w, g.wants, small);
          }
        ]
  ]

  pub run-Gens :
      (es : List (Event A)) (s s' : AsyncSink A) (taken : List A) (m n : ℕ)
      → Books s taken m
      → run throws s es ≡ some s'
      → n + length es < u64_mod
      → Gens n s
      → Gens (n + length es) s'
  unfolding run
  run-Gens [] s s' taken m n b e small g =
      subst (λ k. Gens k s') (omega (arith)) (subst (Gens n) (some-injective s s' e) g)
  run-Gens (ev ∷ es) s s' taken m n b e small g =
      let w = step-Books throws s ev taken m b in
      subst (λ k. Gens k s') (omega arith)
        (run-Gens es w.rest s' (taken ++ taken_in s ev) (m + returned s ev) (n + 1) w.books
          (rw (w.result, run) at e) (omega (arith, small))
          (step-Gens s w.rest ev taken m n b w.result (omega (arith, small)) g))
