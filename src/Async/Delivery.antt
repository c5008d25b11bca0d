-- ===== src/Async/Delivery.antt =====
-- What becomes of the records that a new asynchronous sink takes in before it is stopped.
use mathlib.Core.Option.{some-injective}
use sim_logger.Prelude.{ℕ, ◌+◌, ◌<◌, Bool, false, List, [], ◌∷◌, ◌++◌, some, ◌≡◌, sym, ◌∙◌, subst}
use sim_logger.Queue.{OverflowPolicy, size_mod}
use sim_logger.Async.{AsyncSink, SinkCall, create, request_stop_once}
use sim_logger.Async.Accounts.{new-Books, step-Books, run_accounted}
use sim_logger.Async.Books.{Books, held}
use sim_logger.Async.Ending.{Ends}
use sim_logger.Async.InLoop.{InLoop, create-InLoop, step-InLoop}
use sim_logger.Async.Schedule.{Event, run, taken_in, returned, all_taken_in, all_returned}
use sim_logger.Async.Shutdown.{stop_drains}
use sim_logger.Async.Totals.{Totals}

module _ {A : Type 0} (throws : List (SinkCall A) → SinkCall A → Bool) where
  run-InLoop :
      {policy : OverflowPolicy} (es : List (Event A)) (s s' : AsyncSink A) (taken : List A) (n : ℕ)
      → Books s taken n
      → run throws s es ≡ some s'
      → InLoop policy s
      → InLoop policy s'
  unfolding run
  run-InLoop {policy = policy} [] s s' taken n b e l =
      subst (InLoop policy) (some-injective s s' e) l
  run-InLoop (ev ∷ es) s s' taken n b e l =
      let w = step-Books throws s ev taken n b in
      run-InLoop es w.rest s' (taken ++ taken_in s ev) (n + returned s ev) w.books
        (rw (w.result, run) at e) (step-InLoop throws s w.rest ev taken n b w.result l)

  -- What a schedule from a new sink comes to.
  pub record Ran (policy : OverflowPolicy) (s s' : AsyncSink A) (es : List (Event A)) : Type 0 where
    pub books : Books s' (all_taken_in throws s es) (all_returned throws s es)
    pub in_loop : InLoop policy s'

  pub run-Ran :
      (wrapped : Bool) (capacity : ℕ) (policy : OverflowPolicy) (max_batch : ℕ) (s s' : AsyncSink A)
      (es : List (Event A))
      → capacity < size_mod
      → create wrapped capacity policy max_batch ≡ some s
      → run throws s es ≡ some s'
      → Ran policy s s' es
  run-Ran wrapped capacity policy max_batch s s' es small made ran =
      let w = run_accounted throws wrapped capacity policy max_batch s es small made in
      record {
        books =
            subst (λ t. Books t (all_taken_in throws s es) (all_returned throws s es))
              (some-injective w.rest s' (sym w.result ∙ ran)) w.books;
        in_loop =
            run-InLoop es s s' [] 0 (new-Books wrapped capacity policy max_batch s small made) ran
              (create-InLoop wrapped capacity policy max_batch s made);
      }

  -- Let any schedule run from a new sink, and let the sink be stopped for the first time after it.
  -- Then after some number of steps the worker alone has finished, with a flush as the last call of
  -- the wrapped sink and every request for a flush served, whichever of the wrapped sink's calls throw.
  -- The wrapped sink has been given records in the order in which they were taken in; these are all
  -- that were taken in unless the policy is to drop the oldest; and they and the dropped ones number
  -- the writes that returned, where `dropped_records_count` has the dropped ones modulo 2^64.
  pub stop_delivers :
      (wrapped : Bool) (capacity : ℕ) (policy : OverflowPolicy) (max_batch : ℕ) (s s' : AsyncSink A)
      (es : List (Event A))
      → capacity < size_mod
      → create wrapped capacity policy max_batch ≡ some s
      → run throws s es ≡ some s'
      → s'.stop_requested ≡ false
      → (all : List A) × Ends throws all (request_stop_once s')
        × Totals policy s'.dropped_records_count all
            (all_taken_in throws s es)
            (all_returned throws s es)
  stop_delivers wrapped capacity policy max_batch s s' es small made ran running =
      let r = run-Ran wrapped capacity policy max_batch s s' es small made ran in
      (
        held s' r.books.items,
        stop_drains throws s' r.books.items r.books.holds r.books.batched running
            (r.in_loop.looping running),
        subst
            (λ p.
              Totals p s'.dropped_records_count (held s' r.books.items) (all_taken_in throws s es)
                (all_returned throws s es))
            r.in_loop.policy_is r.books.totals,
      )
