-- ===== src/Queue/Fifo.antt =====
-- What a bounded queue promises, with no buffer and no indices: the records held, oldest first.
use sim_logger.Prelude.{
  ℕ, Bool, true, false, List, [], ◌∷◌, ◌++◌, Option, none, some, ltb, ◌==◌, ◌||◌, if◌then◌else◌,
  length, take, drop,
}
use sim_logger.Queue.{OverflowPolicy, block, drop_newest, drop_oldest, EnqueueResult}
use sim_logger.Queue.Calls.{
  Call, enqueues, dequeues, asks_empty, stops, kicks, notifies, waits, Reply, enqueued, asleep,
  batch, tested, done,
}

pub record Fifo {ℓ} (A : Type ℓ) : Type ℓ where
  pub items : List A
  pub limit : ℕ
  pub policy : OverflowPolicy
  pub stopped : Bool
  pub kicked : Bool

abbrev pub refused : ℕ → EnqueueResult
refused n = record { enqueued = false; dropped = n }

abbrev pub accepted : ℕ → EnqueueResult
accepted n = record { enqueued = true; dropped = n }

module _ {ℓ} {A : Type ℓ} where
  unfoldable pub overflow : OverflowPolicy → Fifo A → A → Option (EnqueueResult × Fifo A)
  overflow block f r = none
  overflow drop_newest f r = some (refused 1, f)
  overflow drop_oldest f r = some (accepted 1, record f { items = drop 1 f.items ++ (r ∷ []) })

  -- `none`: the caller has to wait.
  unfoldable pub enqueue : Fifo A → A → Option (EnqueueResult × Fifo A)
  unfolding overflow
  enqueue f r =
      if f.stopped
      then some (refused 0, f)
      else if ltb (length f.items) f.limit
      then some (accepted 0, record f { items = f.items ++ (r ∷ []) })
      else overflow f.policy f r

  unfoldable pub dequeue_batch : Fifo A → ℕ → List A × Fifo A
  dequeue_batch f max = (take max f.items, record f { items = drop max f.items })

  unfoldable pub request_stop : Fifo A → Fifo A
  request_stop f = record f { stopped = true }

  unfoldable pub kick : Fifo A → Fifo A
  kick f = record f { kicked = true }

  -- The flag says whether there is something to do; finding out takes the kick back.
  unfoldable pub wait_for_work : Fifo A → Bool × Fifo A
  wait_for_work f =
      if f.stopped || ltb 0 (length f.items) || f.kicked
      then (true, record f { kicked = false })
      else (false, f)

  unfoldable pub step : Fifo A → Call A → Reply A × Fifo A
  step f (enqueues r) = elim (enqueue f r) [
    | some (res, f') ↦ (enqueued res, f')
    | none ↦ (asleep, f)
  ]
  step f (dequeues max) = let (xs, f') = dequeue_batch f max in (batch (length xs) xs, f')
  step f asks_empty = (tested (length f.items == 0), f)
  step f stops = (done, request_stop f)
  step f kicks = (done, kick f)
  step f notifies = (done, f)
  step f waits = let (b, f') = wait_for_work f in (tested b, f')

  unfoldable pub run : Fifo A → List (Call A) → List (Reply A)
  run f [] = []
  run f (c ∷ cs) = let (r, f') = step f c in r ∷ run f' cs

  unfoldable pub after : Fifo A → List (Call A) → Fifo A
  after f [] = f
  after f (c ∷ cs) = after (step f c).1 cs

unfoldable pub new_fifo {ℓ} : {A : Type ℓ} → ℕ → OverflowPolicy → Fifo A
new_fifo limit policy = record {
  items = [];
  limit = if limit == 0 then 1 else limit;
  policy = policy;
  stopped = false;
  kicked = false;
}
