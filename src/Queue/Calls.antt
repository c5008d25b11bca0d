-- ===== src/Queue/Calls.antt =====
-- The calls that the threads make of one queue, in the order in which they get its mutex.
use sim_logger.Prelude.{ℕ, Bool, List, [], ◌∷◌, Option, none, some}
use sim_logger.Queue.{
  Queue, Enqueued, returns, sleeps, EnqueueResult, enqueue, dequeue_batch, empty, request_stop,
  notify_consumer, kick_for_flush, wait_for_work,
}

-- The methods of `IQueue`, and the two that the worker and `AsyncSink::flush` use besides.
pub data Call {ℓ} (A : Type ℓ) : Type ℓ where
  enqueues : A → Call A
  dequeues : ℕ → Call A
  asks_empty stops notifies kicks waits : Call A

-- What the caller sees of a call.
pub data Reply {ℓ} (A : Type ℓ) : Type ℓ where
  enqueued : EnqueueResult → Reply A
  asleep : Reply A
  batch : ℕ → List A → Reply A
  tested : Bool → Reply A
  done : Reply A

module _ {ℓ} {A : Type ℓ} where
  unfoldable pub enqueue_reply : Enqueued A → Reply A × Queue A
  enqueue_reply (returns res q) = (enqueued res, q)
  enqueue_reply (sleeps q) = (asleep, q)

  -- `none`: a slot was read that holds no record.
  unfoldable pub step : Queue A → Call A → Option (Reply A × Queue A)
  unfolding enqueue_reply
  step q (enqueues r) = some (enqueue_reply (enqueue q r))
  step q (dequeues max) = elim (dequeue_batch q [] max) [
    | some (n, out, q') ↦ some (batch n out, q')
    | none ↦ none
  ]
  step q asks_empty = some (tested (empty q), q)
  step q stops = some (done, request_stop q)
  step q notifies = some (done, notify_consumer q)
  step q kicks = some (done, kick_for_flush q)
  step q waits = let (b, q') = wait_for_work q in some (tested b, q')

  unfoldable pub run : Queue A → List (Call A) → Option (List (Reply A))
  run q [] = some []
  run q (c ∷ cs) = elim (step q c) [
    | some (r, q') ↦ elim (run q' cs) [ some rs ↦ some (r ∷ rs) | none ↦ none ]
    | none ↦ none
  ]

  -- The queue that a sequence of calls leaves.
  unfoldable pub after : Queue A → List (Call A) → Option (Queue A)
  after q [] = some q
  after q (c ∷ cs) = elim (step q c) [ some (r, q') ↦ after q' cs | none ↦ none ]
