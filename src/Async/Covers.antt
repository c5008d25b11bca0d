-- ===== src/Async/Covers.antt =====
-- What a flush of an asynchronous sink makes sure of.
use mathlib.Core.Option.{some-injective}
use sim_logger.Prelude.{
  ℕ, ◌+◌, ◌<◌, Bool, true, false, List, [], ◌∷◌, ◌++◌, some, ◌≡◌, ◌≢◌, refl, sym, ap, ◌∙◌, arith,
  subst, ◌⊎◌, inl, inr, append_assoc, append-nil, length,
}
use sim_logger.Queue.{OverflowPolicy, drop_oldest, size_mod}
use sim_logger.Async.{
  AsyncSink, SinkCall, flush, Phase, waiting, draining, writing, flushing, publishing,
  final_draining, final_writing, final_flushing, final_checking, final_publishing, finished,
  checking, u64_mod, add_u64, create, request_flush, work, flush_returns,
}
use sim_logger.Async.Accounts.{new-Books, step-Books}
use sim_logger.Async.Books.{Books, Books-move, delivered, delivered-append, in_hand}
use sim_logger.Async.Delivery.{run-Ran}
use sim_logger.Async.Ending.{is_looping}
use sim_logger.Async.InLoop.{InLoop, step-InLoop}
use sim_logger.Async.Moves.{
  wanted, before_check, before_flush, before_check-before_flush, Moved, work_in-Moved,
}
use sim_logger.Async.Schedule.{Event, step, run, taken_in, returned, all_taken_in, all_returned}
use sim_logger.Async.Gens.{step_cases, create-Gens, run-Gens}

module _ {A : Type 0} where
  -- The wrapped sink has been given the records `mark` first and has been flushed after that.
  pub record Flushed (mark : List A) (cs : List (SinkCall A)) : Type 0 where
    pub before : List (SinkCall A)
    pub after : List (SinkCall A)
    pub rest : List A
    pub calls : cs ≡ before ++ (flush ∷ after)
    pub delivers : delivered before ≡ mark ++ rest

module _ {A : Type 0} (throws : List (SinkCall A) → SinkCall A → Bool) where
  -- The records `mark` have been delivered.
  Got : List A → List (SinkCall A) → Type 0
  Got mark cs = (rest : List A) × (delivered cs ≡ mark ++ rest)

  -- They are delivered and flushed, or the flush with the generation `gen` is to wait: for a flush of
  -- the wrapped sink, and before it, unless they are delivered, for a load of the request.
  Covered : ℕ → List A → AsyncSink A → Type 0
  Covered gen mark s =
      Flushed mark s.calls
      ⊎ ((s.flush_done_gen < gen)
          × (before_flush gen s.phase ≡ true)
          × (Got mark s.calls ⊎ (before_check gen s.phase ≡ true)))

  Got-append : (mark : List A) (cs more : List (SinkCall A)) → Got mark cs → Got mark (cs ++ more)
  unfolding Got
  Got-append mark cs more (rest, e) = (
    rest ++ delivered more,
    delivered-append cs more
        ∙ ap (λ ds. ds ++ delivered more) e
        ∙ append_assoc mark rest (delivered more),
  )

  Got-Covered :
      (s s' : AsyncSink A) (mark xs : List A) (gen : ℕ)
      → Moved s.phase xs s s'
      → s.flush_done_gen < gen
      → before_flush gen s.phase ≡ true
      → Got mark s.calls
      → Covered gen mark s'
  unfolding Covered Got
  Got-Covered s s' mark xs gen d less at (rest, got) = elim (d.flushes gen less at) [
    | inl (less', at') ↦ inr (
      less',
      at',
      inl (subst (Got mark) (sym d.calls) (Got-append mark s.calls d.more (rest, got))),
    )
    | inr flushed ↦ inl (record {
      before = s.calls;
      after = [];
      rest = rest;
      calls = d.calls ∙ ap (λ cs. s.calls ++ cs) flushed;
      delivers = got;
    })
  ]

  Flushed-append :
      (mark : List A) (cs more : List (SinkCall A)) → Flushed mark cs → Flushed mark (cs ++ more)
  Flushed-append mark cs more f = record {
    before = f.before;
    after = f.after ++ more;
    rest = f.rest;
    calls = ap (λ ds. ds ++ more) f.calls ∙ append_assoc f.before (flush ∷ f.after) more;
    delivers = f.delivers;
  }

  step-Covered :
      {policy : OverflowPolicy} (s s' : AsyncSink A) (ev : Event A) (mark t : List A) (m gen : ℕ)
      → policy ≢ drop_oldest
      → Books s (mark ++ t) m
      → InLoop policy s
      → step throws s ev ≡ some s'
      → Covered gen mark s
      → Covered gen mark s'
  unfolding Covered Got work
  step-Covered s s' ev mark t m gen keeps b l e c = elim (step_cases throws s s' ev e) [
    | inr st ↦ elim c [
      | inl f ↦ inl (subst (Flushed mark) (sym st.calls) f)
      | inr (less, at, g) ↦ inr (
        omega (arith, st.done, less),
        ap (before_flush gen) st.phase ∙ at,
        elim g [
          | inl got ↦ inl (subst (Got mark) (sym st.calls) got)
          | inr first ↦ inr (ap (before_check gen) st.phase ∙ first)
        ],
      )
    ]
    | inl w ↦
        let d = work_in-Moved throws s.phase s s' b.items refl b.holds b.batched w in
        elim c [
          | inl f ↦ inl (subst (Flushed mark) (sym d.calls) (Flushed-append mark s.calls d.more f))
          | inr (less, at, inl got) ↦ Got-Covered s s' mark b.items gen d less at got
          | inr (less, at, inr first) ↦ elim (d.before gen less first) [
            | inl (less', first') ↦
                inr (less', before_check-before_flush gen s'.phase first', inr first')
            | inr (none_queued, none_held) ↦ Got-Covered s s' mark b.items gen d less at (
              t,
              sym (append-nil (delivered s.calls))
                  ∙ ap (λ ys. delivered s.calls ++ (ys ++ [])) (sym none_held)
                  ∙ ap (λ ys. delivered s.calls ++ (in_hand s.phase ++ ys)) (sym none_queued)
                  ∙ b.totals.lossless (λ p. keeps (sym l.policy_is ∙ p)),
            )
          ]
        ]
  ]

  run-Covered :
      {policy : OverflowPolicy} (es : List (Event A)) (s s' : AsyncSink A) (mark t : List A)
      (m gen : ℕ)
      → policy ≢ drop_oldest
      → Books s (mark ++ t) m
      → InLoop policy s
      → run throws s es ≡ some s'
      → Covered gen mark s
      → Covered gen mark s'
  unfolding run
  run-Covered [] s s' mark t m gen keeps b l e c =
      subst (Covered gen mark) (some-injective s s' e) c
  run-Covered (ev ∷ es) s s' mark t m gen keeps b l e c =
      let w = step-Books throws s ev (mark ++ t) m b in
      run-Covered es w.rest s' mark (t ++ taken_in s ev) (m + returned s ev) gen keeps
        (rw append_assoc at w.books) (step-InLoop throws s w.rest ev (mark ++ t) m b w.result l)
        (rw (w.result, run) at e) (step-Covered s w.rest ev mark t m gen keeps b l w.result c)

  starts_before_check :
      (gen : ℕ) (p : Phase A)
      → is_looping p ≡ true
      → p ≢ checking
      → wanted p < gen
      → before_check gen p ≡ true
  unfolding is_looping wanted before_check
  starts_before_check gen waiting e n less = refl
  starts_before_check gen draining e n less = refl
  starts_before_check gen (writing rs) e n less = refl
  starts_before_check gen checking e n less = absurd (n refl)
  starts_before_check gen (flushing want) e n less = ground arith
  starts_before_check gen (publishing want) e n less = ground arith
  starts_before_check gen final_draining e n less = cc
  starts_before_check gen (final_writing rs) e n less = cc
  starts_before_check gen final_flushing e n less = cc
  starts_before_check gen final_checking e n less = cc
  starts_before_check gen (final_publishing want) e n less = cc
  starts_before_check gen finished e n less = cc

  -- Let any schedule of fewer than 2^64 - 1 events run from a new sink that does not drop the oldest,
  -- and let a flush then make its request, where the sink is not stopped and the worker does not stand
  -- between its finding the queue empty and its load of the request. Then whatever comes next, be it
  -- more writes, flushes and a stop, once that flush returns the wrapped sink has been given all
  -- records taken in before the request, in their order and ahead of any others, and has been flushed
  -- behind them.
  pub flush_covers :
      (wrapped : Bool) (capacity : ℕ) (policy : OverflowPolicy) (max_batch : ℕ)
      (s s1 s2 : AsyncSink A) (es es' : List (Event A))
      → capacity < size_mod
      → policy ≢ drop_oldest
      → length es + 1 < u64_mod
      → create wrapped capacity policy max_batch ≡ some s
      → run throws s es ≡ some s1
      → s1.stop_requested ≡ false
      → s1.phase ≢ checking
      → run throws (request_flush s1).1 es' ≡ some s2
      → flush_returns s2 (request_flush s1).0 ≡ true
      → Flushed (all_taken_in throws s es) s2.calls
  unfolding flush_returns request_flush Covered
  flush_covers wrapped capacity policy max_batch s s1 s2 es es' small keeps few made ran running
        apart ran' done =
      let r = run-Ran throws wrapped capacity policy max_batch s s1 es small made ran in
      let taken = all_taken_in throws s es in
      let g =
        run-Gens throws es s s1 [] 0 0 (new-Books wrapped capacity policy max_batch s small made)
          ran (omega (arith, few)) (create-Gens throws wrapped capacity policy max_batch s made) in
      let gen = add_u64 s1.flush_request_gen 1 in
      let later : s1.flush_request_gen < gen = ground (arith, few, g.few) in
      let first : before_check gen s1.phase ≡ true =
        starts_before_check gen s1.phase (r.in_loop.looping running) apart
          (omega (arith, later, g.wants)) in
      elim (run-Covered es' (request_flush s1).1 s2 taken [] (all_returned throws s es) gen keeps
        (rw append-nil (
          Books-move s1 (request_flush s1).1 r.books r.books.items r.books.holds r.books.awake refl
            refl refl refl))
        (record {
          policy_is = r.in_loop.policy_is;
          in_step = r.in_loop.in_step;
          looping = r.in_loop.looping;
          agreed = r.in_loop.agreed;
        })
        ran'
        (inr (
          omega (arith, later, g.done),
          before_check-before_flush gen s1.phase first,
          inr first,
        ))) [ inl f ↦ f | inr (less, _, _) ↦ absurd (ground (arith, less, done)) ]
