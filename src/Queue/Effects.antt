-- ===== src/Queue/Effects.antt =====
-- What one `enqueue` does to the records held, case by case, for the clients of the queue.
use sim_logger.Prelude.{
  true, false, Bool-cases, ◌<◌, ◌+◌, false, List, [], ◌∷◌, ◌++◌, ◌≡◌, inl, inr, refl, arith,
}
use sim_logger.Queue.{
  Queue, drop_oldest, Enqueued, returns, sleeps, push_unlocked, pop_oldest_unlocked,
  push_and_notify, enqueue,
}
use sim_logger.Queue.{wait_for_work, has_work}
use sim_logger.Queue.Calls.{enqueue_reply}
use sim_logger.Queue.Fifo.{Fifo, refused, accepted}
use sim_logger.Queue.Inv.{Holds, flags-Holds, push-Holds, pop-Holds}
use sim_logger.Queue.Refine.{Represents, enqueue_cases}
use sim_logger.Queue.Wakeups.{NoLostWakeup, enqueue-NoLostWakeup}

module _ {A : Type 0} where
  -- The flags that an enqueue leaves alone.
  pub record Kept (q q' : Queue A) : Type 0 where
    pub policy : q'.policy ≡ q.policy
    pub capacity : q'.capacity ≡ q.capacity
    pub stop : q'.stop_requested ≡ q.stop_requested
    pub kick : q'.flush_kick ≡ q.flush_kick

  pub data Effect (q : Queue A) (xs : List A) (r : A) : Enqueued A → Type 0 where
    takes :
        (q' : Queue A)
        → Kept q q'
        → NoLostWakeup q'
        → Holds q' (xs ++ (r ∷ []))
        → Effect q xs r (returns (accepted 0) q')
    evicts :
        (q' : Queue A) (x : A) (rest : List A)
        → Kept q q'
        → NoLostWakeup q'
        → xs ≡ x ∷ rest
        → q.policy ≡ drop_oldest
        → Holds q' (rest ++ (r ∷ []))
        → Effect q xs r (returns (accepted 1) q')
    stopped : Effect q xs r (returns (refused 0) q)
    overflows : Effect q xs r (returns (refused 1) q)
    waits : (q' : Queue A) → Kept q q' → NoLostWakeup q' → Holds q' xs → Effect q xs r (sleeps q')

  as_fifo : Queue A → List A → Fifo A
  as_fifo q xs = record {
    items = xs;
    limit = q.capacity;
    policy = q.policy;
    stopped = q.stop_requested;
    kicked = q.flush_kick;
  }

  Represents-as_fifo : (q : Queue A) (xs : List A) → Holds q xs → Represents q (as_fifo q xs)
  unfolding as_fifo
  Represents-as_fifo q xs h = record {
    holds = h;
    limit_is = refl;
    policy_is = refl;
    stop_is = refl;
    kick_is = refl;
  }

  push_awake :
      (q : Queue A) (xs : List A) (r : A)
      → Holds q xs
      → q.count < q.capacity
      → Holds (record (push_unlocked q r) { consumer_asleep = false }) (xs ++ (r ∷ []))
  unfolding push_unlocked
  push_awake q xs r h room =
      flags-Holds _ _ q.stop_requested q.flush_kick false q.producers_asleep
        (push-Holds q xs r h room)

  evicts_oldest :
      (q : Queue A) (xs : List A) (r : A)
      → Holds q xs
      → NoLostWakeup q
      → q.count ≡ q.capacity
      → q.policy ≡ drop_oldest
      → enqueue q r ≡ push_and_notify (pop_oldest_unlocked q) r 1
      → Effect q xs r (push_and_notify (pop_oldest_unlocked q) r 1)
  unfolding push_and_notify push_unlocked pop_oldest_unlocked enqueue_reply
  evicts_oldest q [] r h w full oldest e = absurd (omega (arith, h.count_is, h.nonzero))
  evicts_oldest q (x ∷ rest) r h w full oldest e =
      let popped = pop-Holds q x rest h in
      evicts _ x rest (record { policy = refl; capacity = refl; stop = refl; kick = refl })
        (rw e at (enqueue-NoLostWakeup q (x ∷ rest) r h w)) refl oldest
        (push_awake (pop_oldest_unlocked q) rest r popped
          (omega (arith, popped.count_is, h.count_is, full)))

  pub enqueue-Effect :
      (q : Queue A) (xs : List A) (r : A)
      → Holds q xs
      → NoLostWakeup q
      → Effect q xs r (enqueue q r)
  unfolding push_and_notify push_unlocked enqueue_reply
  enqueue-Effect q xs r h w = elim (enqueue_cases q (as_fifo q xs) r (Represents-as_fifo q xs h)) [
    | inl (e, _) ↦ rw e stopped
    | inr (inl (room, e, _)) ↦ rw e (
        takes _ (record { policy = refl; capacity = refl; stop = refl; kick = refl })
          (rw e at (enqueue-NoLostWakeup q xs r h w)) (push_awake q xs r h room))
    | inr (inr (inl (e, _))) ↦ rw e (
        waits _ (record { policy = refl; capacity = refl; stop = refl; kick = refl })
          (rw e at (enqueue-NoLostWakeup q xs r h w))
          (flags-Holds q xs q.stop_requested q.flush_kick q.consumer_asleep (q.producers_asleep + 1)
            h))
    | inr (inr (inr (inl (e, _)))) ↦ rw e overflows
    | inr (inr (inr (inr (full, oldest, e, _)))) ↦ rw e (evicts_oldest q xs r h w full oldest e)
  ]

  pub wait-policy : (q : Queue A) → (wait_for_work q).1.policy ≡ q.policy
  unfolding wait_for_work
  wait-policy q = ground arith

  pub wait-Holds : (q : Queue A) (xs : List A) → Holds q xs → Holds (wait_for_work q).1 xs
  unfolding wait_for_work
  wait-Holds q xs h = elim (Bool-cases (has_work q)) [
    | inl e ↦ rw e (flags-Holds q xs q.stop_requested false q.consumer_asleep q.producers_asleep h)
    | inr e ↦ rw e (flags-Holds q xs q.stop_requested q.flush_kick true q.producers_asleep h)
  ]
