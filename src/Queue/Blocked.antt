-- ===== src/Queue/Blocked.antt =====
-- A producer that waits on a full queue gets its record in once a batch was taken.
use sim_logger.Prelude.{
  ℕ, ◌+◌, ◌<◌, false, List, [], ◌∷◌, ◌++◌, some, ◌≡◌, refl, ◌∙◌, arith, length, length-take,
  length-drop, take, drop,
}
use sim_logger.Queue.{
  Queue, Enqueued, returns, sleeps, block, enqueue, push_and_notify, dequeue_batch,
}
use sim_logger.Queue.Calls
use sim_logger.Queue.Calls.{batch}
use sim_logger.Queue.Fifo.{accepted}
use sim_logger.Queue.Inv.{Holds, flags-Holds}
use sim_logger.Queue.Batch.{dequeue_batch-Dequeued}
use sim_logger.Queue.Wakeups.{NoLostWakeup, dequeue-NoLostWakeup}
use sim_logger.Queue.Effects.{Effect, takes, evicts, stopped, overflows, waits, enqueue-Effect}

module _ {A : Type 0} where
  -- The test of the wait and what it leads to.
  sleeps_full :
      (q : Queue A) (r : A)
      → q.stop_requested ≡ false
      → q.policy ≡ block
      → q.count ≡ q.capacity
      → enqueue q r ≡ sleeps (record q { producers_asleep = q.producers_asleep + 1 })
  unfolding enqueue
  sleeps_full q r running policy full = ground (arith, running, policy, full)

  accepts_room :
      (q : Queue A) (r : A)
      → q.stop_requested ≡ false
      → q.policy ≡ block
      → q.count < q.capacity
      → enqueue q r ≡ push_and_notify q r 0
  unfolding enqueue
  accepts_room q r running policy room = ground (arith, running, policy, room)

  -- The record is in the queue.
  Accepted : Queue A → List A → A → Enqueued A → Type 0
  Accepted q xs r o = (q' : Queue A) × (o ≡ returns (accepted 0) q') × Holds q' (xs ++ (r ∷ []))

  taken :
      (q p : Queue A) (xs : List A) (r : A) (o : Enqueued A)
      → Effect q xs r o
      → o ≡ returns (accepted 0) p
      → Accepted q xs r o
  unfolding Accepted
  taken q p xs r o (takes q' kept awake holds) e = (q', refl, holds)
  taken q p xs r o (evicts q' x rest kept awake split oldest holds) e = cc
  taken q p xs r o stopped e = cc
  taken q p xs r o overflows e = cc
  taken q p xs r o (waits q' kept awake holds) e = cc

  -- A producer's call on a full, running queue of the policy to block puts its thread to sleep. When
  -- then a batch is taken, of a size that is not zero, every sleeping producer is woken, and the
  -- producer's next test, if no other thread came before, lets it in: its record is the last of the
  -- queue, behind those that the batch left.
  pub blocked_enqueue_returns :
      (q : Queue A) (xs : List A) (r : A) (max : ℕ)
      → Holds q xs
      → NoLostWakeup q
      → q.stop_requested ≡ false
      → q.policy ≡ block
      → q.count ≡ q.capacity
      → 0 < max
      → (q1 : Queue A) × (enqueue q r ≡ sleeps q1)
        × ((q2 : Queue A) × (dequeue_batch q1 [] max ≡ some (length (take max xs), take max xs, q2))
            × (q2.producers_asleep ≡ 0)
            × ((q3 : Queue A) × (enqueue q2 r ≡ returns (accepted 0) q3)
                × Holds q3 (drop max xs ++ (r ∷ []))))
  unfolding Accepted push_and_notify Calls.step
  blocked_enqueue_returns q xs r max holds awake running policy full some_room =
      let q1 = record q { producers_asleep = q.producers_asleep + 1 } in
      let h1 =
        flags-Holds q xs q.stop_requested q.flush_kick q.consumer_asleep (q.producers_asleep + 1)
          holds in
      let d = dequeue_batch-Dequeued q1 xs [] max h1 in
      let batch_some : 0 < length (take max xs) =
        omega (arith, some_room, length-take max xs, holds.count_is, full, holds.nonzero) in
      let room : d.rest.count < d.rest.capacity = omega (
        arith,
        some_room,
        length-drop max xs,
        holds.count_is,
        full,
        holds.nonzero,
        d.holds.count_is,
        d.same.capacity,
      ) in
      let awake1 : NoLostWakeup q1 = record {
        consumer = awake.consumer;
        producers = λ _. (running, full, policy);
      } in
      let awake2 =
        dequeue-NoLostWakeup q1 xs max h1 awake1 (batch (length (take max xs)) (take max xs)) d.rest
          (rw (d.result, Calls.step)) in
      let a =
        taken d.rest _ (drop max xs) r (enqueue d.rest r)
          (enqueue-Effect d.rest (drop max xs) r d.holds awake2)
          (accepts_room d.rest r (d.same.stop ∙ running) (d.same.policy ∙ policy) room) in
      (q1, sleeps_full q r running policy full, (d.rest, d.result, d.woken batch_some, a))
