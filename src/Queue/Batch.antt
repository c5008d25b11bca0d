-- ===== src/Queue/Batch.antt =====
-- The loop of `dequeue_batch` takes the oldest records in order.
use sim_logger.Prelude.{
  Bool, true, false, ltb, ◌<◌, length-take, ap, ℕ, zero, suc, ◌≤◌, List, [], ◌∷◌, ◌++◌, Option,
  some, ◌≡◌, refl, ◌∙◌, arith, length, take, drop, append-nil, append_assoc,
}
use sim_logger.Queue.{
  Queue, pop_oldest_unlocked, move_oldest, move_batch, batch_size, dequeue_batch,
}
use sim_logger.Queue.Inv.{Holds, flags-Holds, pop-Holds}

module _ {A : Type 0} where
  -- Two queues that differ in the records at most.
  pub record Same (q q' : Queue A) : Type 0 where
    pub capacity : q'.capacity ≡ q.capacity
    pub policy : q'.policy ≡ q.policy
    pub stop : q'.stop_requested ≡ q.stop_requested
    pub kick : q'.flush_kick ≡ q.flush_kick
    pub consumer : q'.consumer_asleep ≡ q.consumer_asleep
    pub producers : q'.producers_asleep ≡ q.producers_asleep

  pub pop-Same : (q : Queue A) → Same q (pop_oldest_unlocked q)
  unfolding pop_oldest_unlocked
  pop-Same q = ground arith

  Same-trans : {q r s : Queue A} → Same q r → Same r s → Same q s
  Same-trans a b = record {
    capacity = b.capacity ∙ a.capacity;
    policy = b.policy ∙ a.policy;
    stop = b.stop ∙ a.stop;
    kick = b.kick ∙ a.kick;
    consumer = b.consumer ∙ a.consumer;
    producers = b.producers ∙ a.producers;
  }

  move_oldest_lem :
      (q : Queue A) (x : A) (xs out : List A)
      → Holds q (x ∷ xs)
      → move_oldest q out ≡ some (out ++ (x ∷ []), pop_oldest_unlocked q)
  unfolding move_oldest
  move_oldest_lem q x xs out h = rw (h.slots.0, move_oldest)

  -- What the loop leaves of a queue that held `xs`.
  pub record Moved (q : Queue A) (xs out : List A) (n : ℕ) (r : Option (List A × Queue A))
      : Type 0 where
    pub rest : Queue A
    pub result : r ≡ some (out ++ take n xs, rest)
    pub holds : Holds rest (drop n xs)
    pub same : Same q rest

  pub move_batch-Moved :
      (n : ℕ) (q : Queue A) (xs out : List A)
      → Holds q xs
      → n ≤ length xs
      → Moved q xs out n (move_batch n q out)
  unfolding move_batch
  move_batch-Moved zero q xs out h le = record {
    rest = q;
    result = rw append-nil;
    holds = h;
    same = ground arith;
  }
  move_batch-Moved (suc n) q [] out h le = absurd (omega arith)
  move_batch-Moved (suc n) q (x ∷ xs) out h le =
      let m =
        move_batch-Moved n (pop_oldest_unlocked q) xs (out ++ (x ∷ [])) (pop-Holds q x xs h)
          (omega arith) in
      record {
        rest = m.rest;
        result = rw (move_oldest_lem q x xs out h, move_batch) (m.result ∙ rw append_assoc);
        holds = m.holds;
        same = Same-trans (pop-Same q) m.same;
      }

  take_all : (n : ℕ) (xs : List A) → length xs ≤ n → (take n xs ≡ xs) × (drop n xs ≡ [])
  take_all zero [] h = (refl, refl)
  take_all zero (x ∷ xs) h = absurd (omega arith)
  take_all (suc n) [] h = (refl, refl)
  take_all (suc n) (x ∷ xs) h = let (t, d) = take_all n xs (omega arith) in (ap (◌∷◌ x) t, d)

  -- The rounds made are as many as there are records among the first `max`.
  batch_size_lem :
      (q : Queue A) (xs : List A) (max : ℕ)
      → q.count ≡ length xs
      → (batch_size q max ≡ length (take max xs))
        × (take (batch_size q max) xs ≡ take max xs)
        × (drop (batch_size q max) xs ≡ drop max xs)
  unfolding batch_size
  batch_size_lem q xs max e =
      ground (arith, take_all q.count xs, take_all max xs, length-take max xs)

  -- What `dequeue_batch` comes to on a queue that holds `xs`.
  pub record Dequeued (q : Queue A) (xs out : List A) (max : ℕ) (r : Option (ℕ × List A × Queue A))
      : Type 0 where
    pub rest : Queue A
    pub result : r ≡ some (length (take max xs), out ++ take max xs, rest)
    pub holds : Holds rest (drop max xs)
    pub same : Same (record q { producers_asleep = rest.producers_asleep }) rest
    pub woken : 0 < length (take max xs) → rest.producers_asleep ≡ 0
    pub idle : length (take max xs) ≡ 0 → rest.producers_asleep ≡ q.producers_asleep

  finish_batch :
      (q : Queue A) (xs out : List A) (max : ℕ)
      → (batch_size q max ≡ length (take max xs))
        × (take (batch_size q max) xs ≡ take max xs)
        × (drop (batch_size q max) xs ≡ drop max xs)
      → Moved q xs out (batch_size q max) (move_batch (batch_size q max) q out)
      → (b : Bool) → ltb 0 (batch_size q max) ≡ b
      → Dequeued q xs out max (dequeue_batch q out max)
  unfolding dequeue_batch
  finish_batch q xs out max size moved true e = record {
    rest = record moved.rest { producers_asleep = 0 };
    result = rw (moved.result, dequeue_batch) (rw (e, ← size.0, ← size.1));
    holds =
        flags-Holds moved.rest _ moved.rest.stop_requested moved.rest.flush_kick
          moved.rest.consumer_asleep 0 (rw size.2 at moved.holds);
    same = record {
      capacity = moved.same.capacity;
      policy = moved.same.policy;
      stop = moved.same.stop;
      kick = moved.same.kick;
      consumer = moved.same.consumer;
      producers = refl;
    };
    woken = λ _. refl;
    idle = λ none_taken. absurd (ground (arith, size.0));
  }
  finish_batch q xs out max size moved false e = record {
    rest = moved.rest;
    result = rw (moved.result, dequeue_batch) (rw (e, ← size.0, ← size.1));
    holds = rw size.2 at moved.holds;
    same = record {
      capacity = moved.same.capacity;
      policy = moved.same.policy;
      stop = moved.same.stop;
      kick = moved.same.kick;
      consumer = moved.same.consumer;
      producers = refl;
    };
    woken = λ pos. absurd (ground (arith, size.0));
    idle = λ _. moved.same.producers;
  }

  pub dequeue_batch-Dequeued :
      (q : Queue A) (xs out : List A) (max : ℕ)
      → Holds q xs
      → Dequeued q xs out max (dequeue_batch q out max)
  dequeue_batch-Dequeued q xs out max h =
      let size = batch_size_lem q xs max h.count_is in
      finish_batch q xs out max size
        (move_batch-Moved (batch_size q max) q xs out h (omega (arith, size.0, length-take max xs)))
        (ltb 0 (batch_size q max)) refl
