-- ===== src/Async/Books.antt =====
-- Every record given to an asynchronous sink is accounted for: what the wrapped sink has been given,
-- what the worker and the queue still hold, and what was dropped.
use sim_logger.Prelude.{ℕ, ◌+◌, ◌<◌, List, [], ◌∷◌, ◌++◌, ◌≡◌, refl, ap, append_assoc}
use sim_logger.Queue.{enqueue, Enqueued}
use sim_logger.Queue.Inv.{Holds}
use sim_logger.Queue.Wakeups.{NoLostWakeup}
use sim_logger.Queue.Effects.{Effect, takes, evicts, stopped, overflows, waits}
use sim_logger.Async.Totals.{Totals, Totals-take, Totals-evict, Totals-refuse, Totals-same}
use sim_logger.Async.Schedule.{writes, taken_in, returned, settle}
use sim_logger.Async.{
  AsyncSink, SinkCall, write, flush, Phase, writing, final_writing, submit, count_drops,
}

module _ {A : Type 0} where
  -- The records among the calls that the wrapped sink has received.
  abbrev pub delivered : List (SinkCall A) → List A
  delivered [] = []
  delivered (write r ∷ cs) = r ∷ delivered cs
  delivered (flush ∷ cs) = delivered cs

  -- The records that the worker has taken and not yet written.
  abbrev pub in_hand : Phase A → List A
  in_hand (writing rs) = rs
  in_hand (final_writing rs) = rs
  in_hand _ = []

  pub delivered-append :
      (cs ds : List (SinkCall A)) → delivered (cs ++ ds) ≡ delivered cs ++ delivered ds
  delivered-append [] ds = refl
  delivered-append (write r ∷ cs) ds = ap (◌∷◌ r) (delivered-append cs ds)
  delivered-append (flush ∷ cs) ds = delivered-append cs ds

  -- All that has come in and was not lost, oldest first, when the queue holds `xs`.
  abbrev pub held : AsyncSink A → List A → List A
  held s xs = delivered s.calls ++ (in_hand s.phase ++ xs)

  -- The books of a sink that has taken in the records `taken` over `n` writes that returned.
  pub record Books (s : AsyncSink A) (taken : List A) (n : ℕ) : Type 0 where
    pub items : List A
    pub holds : Holds s.queue items
    pub awake : NoLostWakeup s.queue
    pub batched : 0 < s.max_batch
    pub totals : Totals s.queue.policy s.dropped_records_count (held s items) taken n

  held-snoc :
      (us vs xs : List A) (r : A) → (us ++ (vs ++ xs)) ++ (r ∷ []) ≡ us ++ (vs ++ (xs ++ (r ∷ [])))
  held-snoc us vs xs r = simp append_assoc

  pub submit-Books :
      (s : AsyncSink A) (r : A) (taken : List A) (n : ℕ) (b : Books s taken n) (o : Enqueued A)
      → enqueue s.queue r ≡ o
      → Effect s.queue b.items r o
      → Books (settle (submit s r)) (taken ++ taken_in s (writes r)) (n + returned s (writes r))
  unfolding submit taken_in returned count_drops
  submit-Books s r taken n b o e (takes q' kept awake holds) =
      rw (e, submit, taken_in, returned)
        (record {
          items = b.items ++ (r ∷ []);
          holds = holds;
          awake = awake;
          batched = b.batched;
          totals =
              rw (kept.policy, ← held-snoc (delivered s.calls) (in_hand s.phase) b.items r)
                (Totals-take s.queue.policy r b.totals);
        })
  submit-Books s r taken n b o e (evicts q' x rest kept awake split oldest holds) =
      rw (e, submit, taken_in, returned)
        (record {
          items = rest ++ (r ∷ []);
          holds = holds;
          awake = awake;
          batched = b.batched;
          totals =
              rw
                (
                  kept.policy,
                  ← held-snoc (delivered s.calls) (in_hand s.phase) rest r,
                  ← append_assoc,
                )
                (Totals-evict s.queue.policy (delivered s.calls ++ in_hand s.phase) x rest r oldest
                  (rw (split, ← append_assoc) at b.totals));
        })
  submit-Books s r taken n b o e stopped =
      rw (e, submit, taken_in, returned)
        (record {
          items = b.items;
          holds = b.holds;
          awake = b.awake;
          batched = b.batched;
          totals = Totals-refuse s.queue.policy b.totals;
        })
  submit-Books s r taken n b o e overflows =
      rw (e, submit, taken_in, returned)
        (record {
          items = b.items;
          holds = b.holds;
          awake = b.awake;
          batched = b.batched;
          totals = Totals-refuse s.queue.policy b.totals;
        })
  submit-Books s r taken n b o e (waits q' kept awake holds) =
      rw (e, submit, taken_in, returned)
        (record {
          items = b.items;
          holds = holds;
          awake = awake;
          batched = b.batched;
          totals = rw kept.policy (Totals-same s.queue.policy b.totals);
        })

  pub Books-move :
      (s s' : AsyncSink A) {taken : List A} {n : ℕ} (b : Books s taken n) (xs : List A)
      → Holds s'.queue xs
      → NoLostWakeup s'.queue
      → s'.max_batch ≡ s.max_batch
      → s'.queue.policy ≡ s.queue.policy
      → s'.dropped_records_count ≡ s.dropped_records_count
      → held s' xs ≡ held s b.items
      → Books s' taken n
  Books-move s s' b xs h w m p d e = record {
    items = xs;
    holds = h;
    awake = w;
    batched = rw m b.batched;
    totals = rw (p, d, e) b.totals;
  }
