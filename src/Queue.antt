-- ===== src/Queue.antt =====
-- The bounded queue between the producers and the worker of an asynchronous sink:
-- logger_core/include/logger/detail/async_queue.hpp and
-- logger_core/include/logger/detail/mutex_ring_buffer_queue.hpp.
-- A call holds the queue's mutex from its first test to its last write, so it is one function; a
-- wait on a condition variable ends the call with the caller asleep. Records are only moved.
mod Tests
pub mod Calls
pub mod Fifo
pub mod Ring
pub mod Inv
pub mod Batch
pub mod Refine
pub mod Wakeups
pub mod Effects
pub mod Blocked
use sim_logger.Prelude.{
  ℕ, zero, suc, ◌+◌, ◌-◌, ◌%◌, ◌^◌, Bool, true, false, ◌||◌, List, [], ◌∷◌, ◌++◌, Option, none,
  some, ltb, leb, ◌==◌, if◌then◌else◌, get_elem?, set, replicate,
}

-- `OverflowPolicy` of logger_core/include/logger/async_sink.hpp
pub data OverflowPolicy : Type 0 where
  block drop_newest drop_oldest : OverflowPolicy

pub record EnqueueResult : Type 0 where
  pub enqueued : Bool
  pub dropped : ℕ

-- `consumer_asleep` and `producers_asleep` are the waiters of `cv_not_empty_` and `cv_not_full_`:
-- a wait whose test fails adds one, and a notification clears them.
pub record Queue {ℓ} (A : Type ℓ) : Type ℓ where
  pub buffer : List (Option A)
  pub capacity : ℕ
  pub policy : OverflowPolicy
  pub head : ℕ
  pub tail : ℕ
  pub count : ℕ
  pub stop_requested : Bool
  pub flush_kick : Bool
  pub consumer_asleep : Bool
  pub producers_asleep : ℕ

-- `size_t` arithmetic
abbrev pub size_mod : ℕ
size_mod = 2 ^ 64

abbrev pub add_size : ℕ → ℕ → ℕ
add_size a b = (a + b) % size_mod

abbrev pub sub_size : ℕ → ℕ → ℕ
sub_size a b = (a + size_mod - b) % size_mod

-- What a call of `enqueue` comes to: it returns, or its caller goes to sleep in `cv_not_full_.wait`
-- and makes the same tests again when it is woken.
pub data Enqueued {ℓ} (A : Type ℓ) : Type ℓ where
  returns : EnqueueResult → Queue A → Enqueued A
  sleeps : Queue A → Enqueued A

module _ {ℓ} {A : Type ℓ} where
  -- the constructor
  unfoldable pub new_queue : ℕ → OverflowPolicy → Queue A
  new_queue capacity policy = record {
    buffer = if capacity == 0 then replicate 1 none else replicate capacity none;
    capacity = if capacity == 0 then 1 else capacity;
    policy = policy;
    head = 0;
    tail = 0;
    count = 0;
    stop_requested = false;
    flush_kick = false;
    consumer_asleep = false;
    producers_asleep = 0;
  }

  -- `push_unlocked_`
  unfoldable pub push_unlocked : Queue A → A → Queue A
  push_unlocked q r = record q {
    buffer = set q.buffer q.tail (some r);
    tail = add_size q.tail 1 % q.capacity;
    count = add_size q.count 1;
  }

  -- `pop_oldest_unlocked_`
  unfoldable pub pop_oldest_unlocked : Queue A → Queue A
  pop_oldest_unlocked q = record q {
    buffer = set q.buffer q.head none;
    head = add_size q.head 1 % q.capacity;
    count = sub_size q.count 1;
  }

  -- the last lines of `enqueue`: push, notify the consumer, report
  unfoldable pub push_and_notify : Queue A → A → ℕ → Enqueued A
  unfolding push_unlocked
  push_and_notify q r dropped =
      returns (record { enqueued = true; dropped = dropped })
        (record (push_unlocked q r) { consumer_asleep = false })

  abbrev pub refuse : Queue A → ℕ → Enqueued A
  refuse q dropped = returns (record { enqueued = false; dropped = dropped }) q

  unfoldable pub enqueue : Queue A → A → Enqueued A
  unfolding push_and_notify pop_oldest_unlocked
  enqueue q r = if q.stop_requested then refuse q 0 else elim q.policy [
    | block ↦
        if q.stop_requested || ltb q.count q.capacity
        then (if q.stop_requested then refuse q 0 else push_and_notify q r 0)
        else sleeps (record q { producers_asleep = q.producers_asleep + 1 })
    | drop_newest ↦ if leb q.capacity q.count then refuse q 1 else push_and_notify q r 0
    | drop_oldest ↦
        if leb q.capacity q.count
        then push_and_notify (pop_oldest_unlocked q) r 1
        else push_and_notify q r 0
  ]

  -- One round of `dequeue_batch`'s loop: `none` is a read of a slot that is empty or out of range.
  unfoldable pub move_oldest : Queue A → List A → Option (List A × Queue A)
  unfolding pop_oldest_unlocked
  move_oldest q out = elim (get_elem? q.buffer q.head) [
    | some (some r) ↦ some (out ++ (r ∷ []), pop_oldest_unlocked q)
    | _ ↦ none
  ]

  unfoldable pub move_batch : ℕ → Queue A → List A → Option (List A × Queue A)
  move_batch zero q out = some (out, q)
  move_batch (suc n) q out = elim (move_oldest q out) [
    | some (out', q') ↦ move_batch n q' out'
    | none ↦ none
  ]

  -- the number of rounds
  unfoldable pub batch_size : Queue A → ℕ → ℕ
  batch_size q max = if ltb q.count max then q.count else max

  -- `out` is the caller's vector, to which the batch is appended.
  unfoldable pub dequeue_batch : Queue A → List A → ℕ → Option (ℕ × List A × Queue A)
  dequeue_batch q out max =
      let n = batch_size q max in
      elim (move_batch n q out) [
        | some (out', q') ↦
            some (n, out', if ltb 0 n then record q' { producers_asleep = 0 } else q')
        | none ↦ none
      ]

  pub empty : Queue A → Bool
  empty q = q.count == 0

  unfoldable pub has_items_unlocked : Queue A → Bool
  has_items_unlocked q = ltb 0 q.count

  unfoldable pub request_stop : Queue A → Queue A
  request_stop q = record q { stop_requested = true; consumer_asleep = false; producers_asleep = 0 }

  pub notify_consumer : Queue A → Queue A
  notify_consumer q = record q { consumer_asleep = false }

  unfoldable pub kick_for_flush : Queue A → Queue A
  kick_for_flush q = record q { flush_kick = true; consumer_asleep = false }

  -- The test of `wait_for_work`'s wait.
  unfoldable pub has_work : Queue A → Bool
  has_work q = q.stop_requested || ltb 0 q.count || q.flush_kick

  -- The flag says whether the wait ended; if not, the consumer is asleep.
  unfoldable pub wait_for_work : Queue A → Bool × Queue A
  unfolding has_work
  wait_for_work q =
      if has_work q
      then (true, record q { flush_kick = false })
      else (false, record q { consumer_asleep = true })
