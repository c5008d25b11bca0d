-- ===== src/Async/Served.antt =====
-- A requested flush is served: the worker alone comes to store its generation.
use sim_logger.Prelude.{
  ℕ, zero, suc, ◌≤◌, ◌<◌, Bool, true, false, List, [], ◌∷◌, some, ◌≡◌, refl, sym, ap, ◌∙◌, arith,
  Bool-cases, inl, inr, if◌then◌else◌, ◌==◌, ==_iff, ◌&&◌, not, length,
}
use sim_logger.Queue.{Queue, has_work, has_items_unlocked, kick_for_flush}
use sim_logger.Queue.Inv.{Holds, flags-Holds}
use sim_logger.Async.{
  AsyncSink, SinkCall, Phase, waiting, draining, writing, checking, flushing, publishing,
  final_draining, final_writing, final_flushing, final_checking, final_publishing, finished,
  work_in, call_wrapped,
}
use sim_logger.Async.{add_u64, kick, request_flush, flush_returns}
use sim_logger.Async.Reaches.{Reaches, now-Reaches, later-Reaches, batch-Reaches, wakes}
use sim_logger.Async.Ending.{is_looping}

-- A running sink whose queue holds `xs`, whose last request for a flush is `gen`, and whose worker
-- has last seen the request that it has last served.
record Serving {A : Type 0} (gen : ℕ) (s : AsyncSink A) (xs : List A) : Type 0 where
  holds : Holds s.queue xs
  running : s.queue.stop_requested ≡ false
  batched : 0 < s.max_batch
  asked : s.flush_request_gen ≡ gen
  agreed : s.last_seen_flush_gen ≡ s.flush_done_gen

module _ {A : Type 0} (throws : List (SinkCall A) → SinkCall A → Bool) where
  -- The worker alone comes to serve the request.
  abbrev pub Serves : ℕ → AsyncSink A → Type 0
  Serves gen s = Reaches throws (λ s'. s'.flush_done_gen ≡ gen) s

  module _ {gen : ℕ} where
    publishes_it : (s : AsyncSink A) → s.phase ≡ publishing gen → Serves gen s
    unfolding work_in
    publishes_it s here =
        later-Reaches throws s _ (publishing gen) here refl (now-Reaches throws _ refl)

    checks_it :
        (s : AsyncSink A) (xs : List A) → s.phase ≡ checking → Serving gen s xs → Serves gen s
    unfolding work_in call_wrapped
    checks_it s xs here v = elim (Bool-cases (s.flush_request_gen == s.last_seen_flush_gen)) [
      | inl old ↦
          now-Reaches throws s (
            sym v.agreed ∙ sym ((==_iff s.flush_request_gen s.last_seen_flush_gen).0 old) ∙ v.asked)
      | inr new ↦
          later-Reaches throws s (record s { phase = flushing s.flush_request_gen }) checking here
            (rw new)
            (later-Reaches throws _ _ (flushing s.flush_request_gen) refl refl
              (publishes_it _ (ap (λ g. publishing g) v.asked)))
    ]

    writes_first :
        (rs : List A) (s : AsyncSink A) (xs : List A)
        → s.phase ≡ writing rs
        → Serving gen s xs
        → ((s1 : AsyncSink A) → s1.phase ≡ draining → Serving gen s1 xs → Serves gen s1)
        → Serves gen s
    unfolding work_in call_wrapped
    writes_first [] s xs here v k = later-Reaches throws s _ (writing []) here refl (
        k _ refl (record {
          holds = v.holds;
          running = v.running;
          batched = v.batched;
          asked = v.asked;
          agreed = v.agreed;
        }))
    writes_first (r ∷ rs) s xs here v k = later-Reaches throws s _ (writing (r ∷ rs)) here refl (
        writes_first rs _ xs refl
          (record {
            holds = v.holds;
            running = v.running;
            batched = v.batched;
            asked = v.asked;
            agreed = v.agreed;
          })
          k)

    after_batch :
        (s : AsyncSink A) (p : Phase A) (q : Queue A) (xs ys : List A)
        → Serving gen s xs
        → Holds q ys
        → q.stop_requested ≡ s.queue.stop_requested
        → Serving gen (record s { queue = q; phase = p }) ys
    after_batch s p q xs ys v holds stop = record {
      holds = holds;
      running = stop ∙ v.running;
      batched = v.batched;
      asked = v.asked;
      agreed = v.agreed;
    }

    drains_first :
        (fuel : ℕ) (s : AsyncSink A) (xs : List A)
        → length xs ≤ fuel
        → s.phase ≡ draining
        → Serving gen s xs
        → Serves gen s
    unfolding work_in
    drains_first zero s xs enough here v =
        batch-Reaches throws writing checking draining s xs here refl v.holds v.batched
          (λ none_left q holds stop consumer.
            checks_it _ [] refl (after_batch s checking q xs [] v holds stop))
          (λ q rs ys split short holds stop consumer. absurd (omega (arith, short, enough)))
    drains_first (suc fuel) s xs enough here v =
        batch-Reaches throws writing checking draining s xs here refl v.holds v.batched
          (λ none_left q holds stop consumer.
            checks_it _ [] refl (after_batch s checking q xs [] v holds stop))
          (λ q rs ys split short holds stop consumer.
            writes_first rs _ ys refl (after_batch s (writing rs) q xs ys v holds stop)
              (λ s1 there v1. drains_first fuel s1 ys (omega (arith, short, enough)) there v1))

    waits_first :
        (s : AsyncSink A) (xs : List A)
        → s.phase ≡ waiting
        → s.queue.consumer_asleep ≡ false
        → s.queue.flush_kick ≡ true
        → Serving gen s xs
        → Serves gen s
    unfolding work_in has_work
    waits_first s xs here awake kicked v =
        later-Reaches throws s
          (record s { queue = record s.queue { flush_kick = false }; phase = draining }) waiting
          here
          (ap (λ t. some t) (wakes throws s awake (ground (arith, kicked)))
            ∙ ap
                (λ b. some (record s {
                  queue = record s.queue { flush_kick = false };
                  phase =
                      if b && not (has_items_unlocked s.queue) then final_draining else draining;
                }))
                v.running)
          (drains_first (length xs) _ xs (omega arith) refl (
            after_batch s draining (record s.queue { flush_kick = false }) xs xs v
              (flags-Holds s.queue xs s.queue.stop_requested false s.queue.consumer_asleep
                s.queue.producers_asleep v.holds)
              refl))

    publishes_first :
        (want : ℕ) (s : AsyncSink A) (xs : List A)
        → s.phase ≡ publishing want
        → s.queue.consumer_asleep ≡ false
        → s.queue.flush_kick ≡ true
        → Serving gen s xs
        → Serves gen s
    unfolding work_in
    publishes_first want s xs here awake kicked v =
        later-Reaches throws s _ (publishing want) here refl (
          waits_first _ xs refl awake kicked (record {
            holds = v.holds;
            running = v.running;
            batched = v.batched;
            asked = v.asked;
            agreed = refl;
          }))

    flushes_first :
        (want : ℕ) (s : AsyncSink A) (xs : List A)
        → s.phase ≡ flushing want
        → s.queue.consumer_asleep ≡ false
        → s.queue.flush_kick ≡ true
        → Serving gen s xs
        → Serves gen s
    unfolding work_in call_wrapped
    flushes_first want s xs here awake kicked v =
        later-Reaches throws s _ (flushing want) here refl (
          publishes_first want _ xs refl awake kicked (record {
            holds = v.holds;
            running = v.running;
            batched = v.batched;
            asked = v.asked;
            agreed = v.agreed;
          }))

    serves :
        (p : Phase A) (s : AsyncSink A) (xs : List A)
        → is_looping p ≡ true
        → s.phase ≡ p
        → s.queue.consumer_asleep ≡ false
        → s.queue.flush_kick ≡ true
        → Serving gen s xs
        → Serves gen s
    unfolding is_looping
    serves waiting s xs e here awake kicked v = waits_first s xs here awake kicked v
    serves draining s xs e here awake kicked v = drains_first (length xs) s xs (omega arith) here v
    serves (writing rs) s xs e here awake kicked v =
        writes_first rs s xs here v (λ s1. drains_first (length xs) s1 xs (omega arith))
    serves checking s xs e here awake kicked v = checks_it s xs here v
    serves (flushing want) s xs e here awake kicked v = flushes_first want s xs here awake kicked v
    serves (publishing want) s xs e here awake kicked v =
        publishes_first want s xs here awake kicked v
    serves final_draining s xs e here awake kicked v = cc
    serves (final_writing rs) s xs e here awake kicked v = cc
    serves final_flushing s xs e here awake kicked v = cc
    serves final_checking s xs e here awake kicked v = cc
    serves (final_publishing want) s xs e here awake kicked v = cc
    serves finished s xs e here awake kicked v = cc

  -- Let a running sink hold records in its queue's buffer in order, with its worker anywhere in its
  -- loop, be it asleep, and with the request that the worker has last seen the one last served. Then
  -- after a flush has made its request and its kick, some number of steps of the worker alone bring
  -- the sink to a state in which that flush returns.
  pub flush_served :
      (s : AsyncSink A) (xs : List A)
      → Holds s.queue xs
      → s.queue.stop_requested ≡ false
      → 0 < s.max_batch
      → s.last_seen_flush_gen ≡ s.flush_done_gen
      → is_looping s.phase ≡ true
      → let (gen, asked) = request_flush s in
        Reaches throws (λ s'. flush_returns s' gen ≡ true) (kick asked)
  unfolding request_flush kick kick_for_flush flush_returns
  flush_served s xs holds running batched agreed e =
      let r =
        serves {gen = add_u64 s.flush_request_gen 1} s.phase (kick (request_flush s).1) xs e refl
          refl refl
          (record {
            holds =
                flags-Holds s.queue xs s.queue.stop_requested true false s.queue.producers_asleep
                  holds;
            running = running;
            batched = batched;
            asked = refl;
            agreed = agreed;
          }) in
      record { steps = r.steps; rest = r.rest; ran = r.ran; reached = ground (arith, r.reached) }
