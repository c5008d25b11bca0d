-- ===== src/Queue/Tests.antt =====
-- The queue's theorems at small queues.
use mathlib.Core.Option.{some-injective}
use sim_logger.Prelude.{
  ℕ, true, false, List, [], ◌∷◌, ◌++◌, some, ◌≡◌, refl, sym, ◌∙◌, subst, arith, length, take, drop,
}
use sim_logger.Queue.Blocked.{blocked_enqueue_returns}
use sim_logger.Queue.{
  returns, sleeps, enqueue, dequeue_batch, push_and_notify, push_unlocked, Queue, drop_oldest,
  block, new_queue,
}
use sim_logger.Queue.Calls.{
  Call, enqueues, dequeues, stops, waits, enqueued, batch, tested, done, run, after, step,
  enqueue_reply,
}
use sim_logger.Queue.Fifo
use sim_logger.Queue.Fifo.{new_fifo, accepted, refused}
use sim_logger.Queue.Inv.{Holds}
use sim_logger.Queue.Refine.{run_refines}
use sim_logger.Queue.Wakeups.{NoLostWakeup, after-new_queue}

abbrev three_and_take : List (Call ℕ)
three_and_take =
    enqueues 7
    ∷ enqueues 8
    ∷ enqueues 9
    ∷ dequeues 1
    ∷ waits
    ∷ stops
    ∷ enqueues 10
    ∷ dequeues 5
    ∷ []

-- The oldest of three records is lost to a queue of two; after the stop nothing is taken in.
fifo_drops :
    Fifo.run (new_fifo 2 drop_oldest) three_and_take
    ≡ enqueued (accepted 0)
      ∷ enqueued (accepted 0)
      ∷ enqueued (accepted 1)
      ∷ batch 1 (8 ∷ [])
      ∷ tested true
      ∷ done
      ∷ enqueued (refused 0)
      ∷ batch 1 (9 ∷ [])
      ∷ []
unfolding Fifo.run Fifo.step Fifo.enqueue Fifo.overflow Fifo.dequeue_batch Fifo.request_stop
    Fifo.wait_for_work new_fifo
fifo_drops = refl

run_refines_example :
    run (new_queue 2 drop_oldest) three_and_take
    ≡ some (Fifo.run (new_fifo 2 drop_oldest) three_and_take)
run_refines_example = run_refines 2 drop_oldest three_and_take (omega arith)

after-new_queue_example :
    (q : Queue ℕ) × (after (new_queue 1 block) (enqueues 1 ∷ enqueues 2 ∷ dequeues 4 ∷ []) ≡ some q)
    × Holds q (Fifo.after (new_fifo 1 block) (enqueues 1 ∷ enqueues 2 ∷ dequeues 4 ∷ [])).items
    × NoLostWakeup q
after-new_queue_example =
    after-new_queue 1 block (enqueues 1 ∷ enqueues 2 ∷ dequeues 4 ∷ []) (omega arith)

abbrev full_queue : Queue ℕ
full_queue = record {
  buffer = some 7 ∷ [];
  capacity = 1;
  policy = block;
  head = 0;
  tail = 0;
  count = 1;
  stop_requested = false;
  flush_kick = false;
  consumer_asleep = false;
  producers_asleep = 0;
}

filled : after (new_queue 1 block) (enqueues 7 ∷ []) ≡ some full_queue
unfolding after step enqueue push_and_notify push_unlocked new_queue enqueue_reply
filled = refl

full_queue-Holds : Holds full_queue (7 ∷ []) × NoLostWakeup full_queue
unfolding Fifo.after Fifo.step Fifo.enqueue Fifo.overflow new_fifo
full_queue-Holds =
    let (q, ran, holds, awake) = after-new_queue 1 block (enqueues 7 ∷ []) (omega arith) in
    subst (λ q'. Holds q' (7 ∷ []) × NoLostWakeup q')
      (some-injective q full_queue (sym ran ∙ filled)) (holds, awake)

abbrev seven : List ℕ
seven = 7 ∷ []

blocked_enqueue_returns_example :
    (q1 : Queue ℕ) × (enqueue full_queue 8 ≡ sleeps q1)
    × ((q2 : Queue ℕ) × (dequeue_batch q1 [] 4 ≡ some (length (take 4 seven), take 4 seven, q2))
        × (q2.producers_asleep ≡ 0)
        × ((q3 : Queue ℕ) × (enqueue q2 8 ≡ returns (accepted 0) q3)
            × Holds q3 (drop 4 seven ++ (8 ∷ []))))
blocked_enqueue_returns_example =
    blocked_enqueue_returns full_queue seven 8 4 full_queue-Holds.0 full_queue-Holds.1 refl refl
      refl (omega arith)
