-- ===== src/Queue/Wakeups.antt =====
-- No thread stays asleep on a condition variable of the queue once its test would pass.
use sim_logger.Prelude.{
  ℕ, ◌<◌, true, false, List, [], ◌∷◌, some, ◌≡◌, refl, subst, arith, length, length-drop,
  length-take, take,
}
use sim_logger.Queue.{
  Queue, OverflowPolicy, block, size_mod, new_queue, push_unlocked, pop_oldest_unlocked,
  push_and_notify, enqueue, dequeue_batch, has_work, request_stop, notify_consumer, kick_for_flush,
  wait_for_work,
}
use sim_logger.Queue.Calls.{
  Call, enqueues, dequeues, asks_empty, stops, kicks, notifies, waits, Reply, enqueue_reply, step,
  after,
}
use sim_logger.Queue.Fifo
use sim_logger.Queue.Fifo.{Fifo, new_fifo}
use sim_logger.Queue.Refine.{Represents, step-Answers, new-Represents}
use sim_logger.Queue.Inv.{Holds}
use sim_logger.Queue.Batch.{dequeue_batch-Dequeued}

-- The consumer sleeps only while there is nothing for it to see, and producers only while the queue
-- is full and blocks.
pub record NoLostWakeup {A : Type 0} (q : Queue A) : Type 0 where
  pub consumer :
      q.consumer_asleep ≡ true → (q.stop_requested ≡ false) × (q.count ≡ 0) × (q.flush_kick ≡ false)
  pub producers :
      0 < q.producers_asleep
      → (q.stop_requested ≡ false) × (q.count ≡ q.capacity) × (q.policy ≡ block)

module _ {A : Type 0} where
  pub enqueue-NoLostWakeup :
      (q : Queue A) (xs : List A) (r : A)
      → Holds q xs
      → NoLostWakeup q
      → NoLostWakeup (enqueue_reply (enqueue q r)).1
  unfolding enqueue push_and_notify push_unlocked pop_oldest_unlocked enqueue_reply
  enqueue-NoLostWakeup q xs r h w = record {
    consumer = ground (arith, w.consumer);
    producers = ground (arith, w.producers, h.fits, h.nonzero);
  }

  pub dequeue-NoLostWakeup :
      (q : Queue A) (xs : List A) (max : ℕ)
      → Holds q xs
      → NoLostWakeup q
      → (r : Reply A) (q' : Queue A) → step q (dequeues max) ≡ some (r, q')
      → NoLostWakeup q'
  unfolding step
  dequeue-NoLostWakeup q xs max h w r q' e =
      let d = dequeue_batch-Dequeued q xs [] max h in
      subst (λ s. NoLostWakeup s) (same d.result)
        (record {
          consumer = λ a. ground (
            arith,
            w.consumer,
            d.same.consumer,
            d.same.stop,
            d.same.kick,
            d.holds.count_is,
            length-drop max xs,
            h.count_is,
          );
          producers = λ a. ground (
            arith,
            d.woken,
            d.idle,
            w.producers,
            d.same.stop,
            d.same.capacity,
            d.same.policy,
            d.holds.count_is,
            length-drop max xs,
            length-take max xs,
            h.count_is,
            h.nonzero,
          );
        })
    where
      same :
          {rest : Queue A}
          → dequeue_batch q [] max ≡ some (length (take max xs), take max xs, rest)
          → rest ≡ q'
      same p = ground (arith, p)

  pub step-NoLostWakeup :
      (q : Queue A) (xs : List A) (c : Call A) (r : Reply A) (q' : Queue A)
      → Holds q xs
      → NoLostWakeup q
      → step q c ≡ some (r, q')
      → NoLostWakeup q'
  unfolding step has_work request_stop notify_consumer kick_for_flush wait_for_work
  step-NoLostWakeup q xs (enqueues a) r q' h w e =
      let left : (enqueue_reply (enqueue q a)).1 ≡ q' = ground (arith, e) in
      subst (λ s. NoLostWakeup s) left (enqueue-NoLostWakeup q xs a h w)
  step-NoLostWakeup q xs (dequeues max) r q' h w e = dequeue-NoLostWakeup q xs max h w r q' e
  step-NoLostWakeup q xs asks_empty r q' h w e = ground (arith, w.consumer, w.producers)
  step-NoLostWakeup q xs stops r q' h w e = ground (arith, w.consumer, w.producers)
  step-NoLostWakeup q xs notifies r q' h w e = ground (arith, w.consumer, w.producers)
  step-NoLostWakeup q xs kicks r q' h w e = ground (arith, w.consumer, w.producers)
  step-NoLostWakeup q xs waits r q' h w e = ground (arith, w.consumer, w.producers)

  after-Holds :
      (q : Queue A) (f : Fifo A) (cs : List (Call A))
      → Represents q f
      → NoLostWakeup q
      → (q' : Queue A) × (after q cs ≡ some q') × Holds q' (Fifo.after f cs).items × NoLostWakeup q'
  unfolding after Fifo.after
  after-Holds q f [] v w = (q, refl, v.holds, w)
  after-Holds q f (c ∷ cs) v w =
      let a = step-Answers q f c v in
      let (q', run, holds, awake) =
        after-Holds a.rest (Fifo.step f c).1 cs a.represents
          (step-NoLostWakeup q f.items c (Fifo.step f c).0 a.rest v.holds w a.result) in
      (q', rw (a.result, after) run, holds, awake)

  pub new-NoLostWakeup :
      (capacity : ℕ) (policy : OverflowPolicy) → NoLostWakeup {A = A} (new_queue capacity policy)
  unfolding new_queue
  new-NoLostWakeup capacity policy = record {
    consumer = λ e. cc;
    producers = λ h. absurd (omega arith);
  }

  -- After any calls of a new queue, its buffer holds exactly the records that the FIFO holds, in
  -- consecutive slots from the head on, every other slot is empty, and no thread is asleep whose
  -- test would pass.
  pub after-new_queue :
      (capacity : ℕ) (policy : OverflowPolicy) (calls : List (Call A))
      → capacity < size_mod
      → (q : Queue A) × (after (new_queue capacity policy) calls ≡ some q)
        × Holds q (Fifo.after (new_fifo capacity policy) calls).items
        × NoLostWakeup q
  after-new_queue capacity policy calls h =
      after-Holds _ _ calls (new-Represents capacity policy h) (new-NoLostWakeup capacity policy)
