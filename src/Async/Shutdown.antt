-- ===== src/Async/Shutdown.antt =====
-- A stopped sink comes to its end: the worker alone delivers what is left and finishes.
use sim_logger.Prelude.{
  ℕ, zero, suc, ◌≤◌, ◌<◌, Bool, true, false, List, [], ◌∷◌, ◌++◌, some, ◌≡◌, refl, sym, ap, ◌∙◌,
  arith, Bool-cases, inl, inr, if◌then◌else◌, ltb, ◌==◌, ◌&&◌, ◌||◌, not, length,
}
use sim_logger.Queue.{has_work, has_items_unlocked, wait_for_work, request_stop, kick_for_flush}
use sim_logger.Queue.Inv.{Holds, flags-Holds}
use sim_logger.Async.{
  AsyncSink, SinkCall, Phase, waiting, draining, writing, checking, flushing, publishing,
  final_draining, final_writing, final_flushing, final_checking, final_publishing, finished,
  work_in, call_wrapped, wait_round, request_stop_once,
}
use sim_logger.Async.Books.{delivered, in_hand}
use sim_logger.Async.Worker.{write-held, flush-held}
use sim_logger.Async.Reaches.{later-Reaches, wakes}
use sim_logger.Async.Ending.{is_looping, Stopped, Ends, take_ends, drains_finally}

module _ {A : Type 0} (throws : List (SinkCall A) → SinkCall A → Bool) where
  module _ {all : List A} where
    -- A round of `wait_for_work`, which ends at once.
    waited :
        (q : Phase A) (s : AsyncSink A) (xs : List A)
        → s.phase ≡ waiting
        → Stopped all s xs
        → (if not (ltb 0 s.queue.count) then final_draining else draining) ≡ q
        → in_hand q ≡ []
        → ((s1 : AsyncSink A) → s1.phase ≡ q → Stopped all s1 xs → Ends throws all s1)
        → Ends throws all s
    unfolding work_in wait_round wait_for_work has_work has_items_unlocked
    waited q s xs here l goes free k =
        later-Reaches throws s
          (record s { queue = record s.queue { flush_kick = false }; phase = q }) waiting here
          (ap (λ t. some t)
              (wakes throws s l.awake
                (ap (λ b. b || ltb 0 s.queue.count || s.queue.flush_kick) l.stop))
            ∙ ap
                (λ p'.
                  some (record s { queue = record s.queue { flush_kick = false }; phase = p' }))
                (ap (λ b. if b && not (ltb 0 s.queue.count) then final_draining else draining)
                    l.stop
                  ∙ goes))
          (k _ refl (record {
            holds =
                flags-Holds s.queue xs s.queue.stop_requested false s.queue.consumer_asleep
                  s.queue.producers_asleep l.holds;
            stop = l.stop;
            awake = l.awake;
            batched = l.batched;
            due = ap (λ ys. delivered s.calls ++ (ys ++ xs)) (free ∙ ap in_hand (sym here)) ∙ l.due;
          }))

    waits_finally : (s : AsyncSink A) → s.phase ≡ waiting → Stopped all s [] → Ends throws all s
    waits_finally s here l =
        waited final_draining s [] here l (ground (arith, l.holds.count_is)) refl
          (drains_finally throws)

    -- In the loop, where the worker comes back to `wait_for_work`.
    module _ (xs : List A)
        (k_waiting : (s : AsyncSink A)
          → s.phase ≡ waiting
          → Stopped all s xs
          → Ends throws all s) where
      publishes :
          (want : ℕ) (s : AsyncSink A)
          → s.phase ≡ publishing want
          → Stopped all s xs
          → Ends throws all s
      unfolding work_in
      publishes want s here l = later-Reaches throws s _ (publishing want) here refl (
          k_waiting _ refl (record {
            holds = l.holds;
            stop = l.stop;
            awake = l.awake;
            batched = l.batched;
            due = rw here at l.due;
          }))

      flushes :
          (want : ℕ) (s : AsyncSink A)
          → s.phase ≡ flushing want
          → Stopped all s xs
          → Ends throws all s
      unfolding work_in call_wrapped
      flushes want s here l = later-Reaches throws s _ (flushing want) here refl (
          publishes want _ refl (record {
            holds = l.holds;
            stop = l.stop;
            awake = l.awake;
            batched = l.batched;
            due = rw (flush-held throws s.calls) (rw here at l.due);
          }))

      checks : (s : AsyncSink A) → s.phase ≡ checking → Stopped all s xs → Ends throws all s
      unfolding work_in
      checks s here l =
          let moves : (q : Phase A) → in_hand q ≡ [] → Stopped all (record s { phase = q }) xs =
            λ q free. record {
              holds = l.holds;
              stop = l.stop;
              awake = l.awake;
              batched = l.batched;
              due =
                  ap (λ ys. delivered s.calls ++ (ys ++ xs)) (free ∙ ap in_hand (sym here)) ∙ l.due;
            } in
          elim (Bool-cases (s.flush_request_gen == s.last_seen_flush_gen)) [
            | inl old ↦
                later-Reaches throws s (record s { phase = waiting }) checking here (rw old)
                  (k_waiting _ refl (moves waiting refl))
            | inr new ↦
                later-Reaches throws s (record s { phase = flushing s.flush_request_gen }) checking
                  here (rw new)
                  (flushes s.flush_request_gen _ refl (moves (flushing s.flush_request_gen) refl))
          ]

    -- The rest of a batch
    writes_on :
        (rs : List A) (s : AsyncSink A) (xs : List A)
        → s.phase ≡ writing rs
        → Stopped all s xs
        → ((s1 : AsyncSink A) → s1.phase ≡ draining → Stopped all s1 xs → Ends throws all s1)
        → Ends throws all s
    unfolding work_in call_wrapped
    writes_on [] s xs here l k = later-Reaches throws s _ (writing []) here refl (
        k _ refl (record {
          holds = l.holds;
          stop = l.stop;
          awake = l.awake;
          batched = l.batched;
          due = rw here at l.due;
        }))
    writes_on (r ∷ rs) s xs here l k = later-Reaches throws s _ (writing (r ∷ rs)) here refl (
        writes_on rs _ xs refl
          (record {
            holds = l.holds;
            stop = l.stop;
            awake = l.awake;
            batched = l.batched;
            due = write-held throws s.calls r rs xs ∙ (rw here at l.due);
          })
          k)

    drains :
        (fuel : ℕ) (s : AsyncSink A) (xs : List A)
        → length xs ≤ fuel
        → s.phase ≡ draining
        → Stopped all s xs
        → Ends throws all s
    unfolding work_in
    drains zero s xs enough here l =
        take_ends throws writing checking draining s xs (λ rs. refl) refl refl here refl l
          (λ _. checks [] waits_finally)
          (λ s1 rs ys short there l1. absurd (omega (arith, short, enough)))
    drains (suc fuel) s xs enough here l =
        take_ends throws writing checking draining s xs (λ rs. refl) refl refl here refl l
          (λ _. checks [] waits_finally)
          (λ s1 rs ys short there l1.
            writes_on rs s1 ys there l1
              (λ s2 there2 l2. drains fuel s2 ys (omega (arith, short, enough)) there2 l2))

    waits :
        (xs : List A) (s : AsyncSink A) → s.phase ≡ waiting → Stopped all s xs → Ends throws all s
    waits [] s here l = waits_finally s here l
    waits (x ∷ xs) s here l =
        waited draining s (x ∷ xs) here l (ground (arith, l.holds.count_is)) refl
          (λ s1 there l1. drains (length (x ∷ xs)) s1 (x ∷ xs) (omega arith) there l1)

    loops :
        (p : Phase A) (s : AsyncSink A) (xs : List A)
        → is_looping p ≡ true
        → s.phase ≡ p
        → Stopped all s xs
        → Ends throws all s
    unfolding is_looping
    loops waiting s xs e here l = waits xs s here l
    loops draining s xs e here l = drains (length xs) s xs (omega arith) here l
    loops (writing rs) s xs e here l =
        writes_on rs s xs here l (λ s1. drains (length xs) s1 xs (omega arith))
    loops checking s xs e here l = checks xs (waits xs) s here l
    loops (flushing want) s xs e here l = flushes xs (waits xs) want s here l
    loops (publishing want) s xs e here l = publishes xs (waits xs) want s here l
    loops final_draining s xs e here l = cc
    loops (final_writing rs) s xs e here l = cc
    loops final_flushing s xs e here l = cc
    loops final_checking s xs e here l = cc
    loops (final_publishing want) s xs e here l = cc
    loops finished s xs e here l = cc

  -- Let a sink that is not stopped hold records in its queue's buffer in order, with its worker
  -- anywhere in its loop, be it asleep, and let it be stopped. Then after some number of steps the
  -- worker alone has finished: the wrapped sink has got, behind what it had, the records in the
  -- worker's hands and then those of the queue, in their order, whichever of its calls throw; its last
  -- call is a flush; and every request for a flush is served.
  pub stop_drains :
      (s : AsyncSink A) (xs : List A)
      → Holds s.queue xs
      → 0 < s.max_batch
      → s.stop_requested ≡ false
      → is_looping s.phase ≡ true
      → Ends throws (delivered s.calls ++ (in_hand s.phase ++ xs)) (request_stop_once s)
  unfolding request_stop_once request_stop kick_for_flush
  stop_drains s xs holds batched running e = rw running (
      loops s.phase _ xs e refl (record {
        holds = flags-Holds s.queue xs true true false 0 holds;
        stop = refl;
        awake = refl;
        batched = batched;
        due = refl;
      }))
