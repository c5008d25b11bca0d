-- ===== src/Queue/Refine.antt =====
-- The ring buffer behaves as the bounded FIFO of the records that it holds.
use native.Mathlib.Nat.{mod-eq_of_lt}
use sim_logger.Prelude.{
  Bool-cases, get_elem?, replicate, ◌==◌, ◌%◌, ℕ, zero, suc, ◌+◌, ◌-◌, ◌<◌, Bool, true, false, List,
  [], ◌∷◌, ◌++◌, Option, none, some, ◌≡◌, sym, ◌||◌, ◌⊎◌, inl, inr, refl, ◌∙◌, ap, arith, length,
  drop, ltb, length-replicate,
}
use sim_logger.Queue.{
  Queue, OverflowPolicy, drop_oldest, size_mod, new_queue, push_unlocked, pop_oldest_unlocked,
  push_and_notify, refuse, enqueue, empty, has_work, request_stop, notify_consumer, kick_for_flush,
  wait_for_work, sleeps,
}
use sim_logger.Queue.Calls.{
  Call, enqueues, dequeues, asks_empty, stops, kicks, notifies, waits, Reply, enqueue_reply, step,
  run,
}
use sim_logger.Queue.Fifo
use sim_logger.Queue.Fifo.{Fifo, refused, accepted, new_fifo}
use sim_logger.Queue.Ring.{Slots}
use sim_logger.Queue.Inv.{Holds, flags-Holds, push-Holds, pop-Holds}
use sim_logger.Queue.Batch.{dequeue_batch-Dequeued}

module _ {A : Type 0} where
  pub record Represents (q : Queue A) (f : Fifo A) : Type 0 where
    pub holds : Holds q f.items
    pub limit_is : q.capacity ≡ f.limit
    pub policy_is : q.policy ≡ f.policy
    pub stop_is : q.stop_requested ≡ f.stopped
    pub kick_is : q.flush_kick ≡ f.kicked

  -- A step of the code answers as the specification does, and what it leaves is represented.
  pub record Answers (r : Option (Reply A × Queue A)) (s : Reply A × Fifo A) : Type 0 where
    pub rest : Queue A
    pub result : r ≡ some (s.0, rest)
    pub represents : Represents rest s.1

  get_elem?-replicate : (n i : ℕ) (x : A) → i < n → get_elem? (replicate n x) i ≡ some x
  get_elem?-replicate zero i x h = elim h [ ]
  get_elem?-replicate (suc n) zero x h = refl
  get_elem?-replicate (suc n) (suc i) x h = get_elem?-replicate n i x (omega arith)

  Slots-replicate : (n h k : ℕ) (x : A) → h < n → Slots (replicate n x) n h (replicate k x)
  Slots-replicate n h zero x lt = tt
  Slots-replicate n h (suc k) x lt =
      (get_elem?-replicate n h x lt, Slots-replicate n ((h + 1) % n) k x (omega arith))

module _ {A : Type 0} where
  fresh-Represents :
      (n : ℕ) (policy : OverflowPolicy)
      → 0 < n
      → n < size_mod
      → Represents {A = A}
          (record (new_queue 1 policy) { buffer = replicate n none; capacity = n })
          (record (new_fifo 1 policy) { limit = n })
  unfolding new_queue new_fifo
  fresh-Represents n policy pos small = record {
    holds = record {
      nonzero = pos;
      small = small;
      sized = length-replicate n none;
      head_in = pos;
      tail_is = omega (arith, mod-eq_of_lt pos);
      count_is = refl;
      fits = omega arith;
      slots = Slots-replicate n 0 (n - 0) none pos;
    };
    limit_is = refl;
    policy_is = refl;
    stop_is = refl;
    kick_is = refl;
  }

  pub new-Represents :
      (capacity : ℕ) (policy : OverflowPolicy)
      → capacity < size_mod
      → Represents {A = A} (new_queue capacity policy) (new_fifo capacity policy)
  unfolding new_queue new_fifo
  new-Represents c p h = elim (Bool-cases (c == 0)) [
    | inl e ↦ rw e (fresh-Represents 1 p (omega arith) (omega arith))
    | inr e ↦ rw e (fresh-Represents c p (ground arith) h)
  ]

  -- The result of an accepted record, with room for it.
  pub push-Represents :
      (q : Queue A) (f : Fifo A) (r : A)
      → Represents q f
      → q.count < q.capacity
      → Represents
          (record (push_unlocked q r) { consumer_asleep = false })
          (record f { items = f.items ++ (r ∷ []) })
  unfolding push_unlocked
  push-Represents q f r v room = record {
    holds =
        flags-Holds _ _ q.stop_requested q.flush_kick false q.producers_asleep
          (push-Holds q f.items r v.holds room);
    limit_is = v.limit_is;
    policy_is = v.policy_is;
    stop_is = v.stop_is;
    kick_is = v.kick_is;
  }

  pub flags-Represents :
      (q : Queue A) (f : Fifo A) (consumer : Bool) (producers : ℕ)
      → Represents q f
      → Represents (record q { consumer_asleep = consumer; producers_asleep = producers }) f
  flags-Represents q f consumer producers v = record {
    holds = flags-Holds q f.items q.stop_requested q.flush_kick consumer producers v.holds;
    limit_is = v.limit_is;
    policy_is = v.policy_is;
    stop_is = v.stop_is;
    kick_is = v.kick_is;
  }

  pub evict-Represents :
      (q : Queue A) (f : Fifo A) (x : A) (xs : List A)
      → f.items ≡ x ∷ xs
      → Represents q f
      → Represents (pop_oldest_unlocked q) (record f { items = xs })
  unfolding pop_oldest_unlocked
  evict-Represents q f x xs e v = record {
    holds = pop-Holds q x xs (rw e at v.holds);
    limit_is = v.limit_is;
    policy_is = v.policy_is;
    stop_is = v.stop_is;
    kick_is = v.kick_is;
  }

  -- The branches of the two `enqueue`s, side by side.
  pub enqueue_cases :
      (q : Queue A) (f : Fifo A) (r : A)
      → Represents q f
      → ((enqueue q r ≡ refuse q 0) × (Fifo.enqueue f r ≡ some (refused 0, f)))
        ⊎ ((q.count < q.capacity)
            × (enqueue q r ≡ push_and_notify q r 0)
            × (Fifo.enqueue f r ≡ some (accepted 0, record f { items = f.items ++ (r ∷ []) })))
        ⊎ ((enqueue q r ≡ sleeps (record q { producers_asleep = q.producers_asleep + 1 }))
            × (Fifo.enqueue f r ≡ none))
        ⊎ ((enqueue q r ≡ refuse q 1) × (Fifo.enqueue f r ≡ some (refused 1, f)))
        ⊎ ((q.count ≡ q.capacity)
            × (q.policy ≡ drop_oldest)
            × (enqueue q r ≡ push_and_notify (pop_oldest_unlocked q) r 1)
            × (Fifo.enqueue f r
                ≡ some (accepted 1, record f { items = drop 1 f.items ++ (r ∷ []) })))
  unfolding enqueue Fifo.enqueue
  enqueue_cases q f r v = ground arith

  enqueue-Answers :
      (q : Queue A) (f : Fifo A) (r : A)
      → Represents q f
      → Answers (step q (enqueues r)) (Fifo.step f (enqueues r))
  unfolding step enqueue_reply push_and_notify Fifo.step
  enqueue-Answers q f r v = elim (enqueue_cases q f r v) [
    | inl (e, e') ↦ rw (e, e', Fifo.step) (record { rest = q; result = refl; represents = v })
    | inr (inl (room, e, e')) ↦
        rw (e, e', Fifo.step)
          (record { rest = _; result = refl; represents = push-Represents q f r v room })
    | inr (inr (inl (e, e'))) ↦
        rw (e, e', Fifo.step)
          (record {
            rest = _;
            result = refl;
            represents = flags-Represents q f q.consumer_asleep (q.producers_asleep + 1) v;
          })
    | inr (inr (inr (inl (e, e')))) ↦
        rw (e, e', Fifo.step) (record { rest = q; result = refl; represents = v })
    | inr (inr (inr (inr (full, _, e, e')))) ↦
        rw (e, e', Fifo.step)
          (record { rest = _; result = refl; represents = evicted f.items refl full })
  ]
    where
      evicted :
          (xs : List A)
          → f.items ≡ xs
          → q.count ≡ q.capacity
          → Represents
              (record (push_unlocked (pop_oldest_unlocked q) r) { consumer_asleep = false })
              (record f { items = drop 1 xs ++ (r ∷ []) })
      evicted [] e full = absurd (omega (arith, v.holds.count_is, v.holds.nonzero, ap length e))
      evicted (x ∷ xs) e full =
          let w = evict-Represents q f x xs e v in
          push-Represents (pop_oldest_unlocked q) (record f { items = xs }) r w
            (omega (arith, w.holds.count_is, v.holds.count_is, ap length e, w.limit_is, v.limit_is))

  dequeue-Answers :
      (q : Queue A) (f : Fifo A) (max : ℕ)
      → Represents q f
      → Answers (step q (dequeues max)) (Fifo.step f (dequeues max))
  unfolding step Fifo.step Fifo.dequeue_batch
  dequeue-Answers q f max v =
      let d = dequeue_batch-Dequeued q f.items [] max v.holds in
      record {
        rest = d.rest;
        result = rw (d.result, step);
        represents = record {
          holds = d.holds;
          limit_is = d.same.capacity ∙ v.limit_is;
          policy_is = d.same.policy ∙ v.policy_is;
          stop_is = d.same.stop ∙ v.stop_is;
          kick_is = d.same.kick ∙ v.kick_is;
        };
      }

  -- The same flags on both sides.
  pub set_flags :
      (q : Queue A) (f : Fifo A) (stop kick consumer : Bool) (producers : ℕ)
      → Represents q f
      → Represents
          (record q {
            stop_requested = stop;
            flush_kick = kick;
            consumer_asleep = consumer;
            producers_asleep = producers;
          })
          (record f { stopped = stop; kicked = kick })
  set_flags q f stop kick consumer producers v = record {
    holds = flags-Holds q f.items stop kick consumer producers v.holds;
    limit_is = v.limit_is;
    policy_is = v.policy_is;
    stop_is = refl;
    kick_is = refl;
  }

  same_answer :
      (q : Queue A) (f : Fifo A)
      → Represents q f
      → has_work q ≡ (f.stopped || ltb 0 (length f.items) || f.kicked)
  unfolding has_work
  same_answer q f v = rw (v.stop_is, v.holds.count_is, v.kick_is)

  waits-Answers :
      (q : Queue A) (f : Fifo A) → Represents q f → Answers (step q waits) (Fifo.step f waits)
  unfolding step Fifo.step wait_for_work Fifo.wait_for_work
  waits-Answers q f v = elim (Bool-cases (has_work q)) [
    | inl e ↦
        rw (e, sym (same_answer q f v) ∙ e)
          (record {
            rest = _;
            result = refl;
            represents =
                rw (← v.stop_is)
                  (set_flags q f q.stop_requested false q.consumer_asleep q.producers_asleep v);
          })
    | inr e ↦
        rw (e, sym (same_answer q f v) ∙ e)
          (record {
            rest = _;
            result = refl;
            represents = flags-Represents q f true q.producers_asleep v;
          })
  ]

  pub step-Answers :
      (q : Queue A) (f : Fifo A) (c : Call A) → Represents q f → Answers (step q c) (Fifo.step f c)
  unfolding step Fifo.step empty request_stop Fifo.request_stop notify_consumer kick_for_flush
      Fifo.kick
  step-Answers q f (enqueues r) v = enqueue-Answers q f r v
  step-Answers q f (dequeues max) v = dequeue-Answers q f max v
  step-Answers q f asks_empty v = record { rest = q; result = rw v.holds.count_is; represents = v }
  step-Answers q f stops v = record {
    rest = request_stop q;
    result = refl;
    represents = rw (← v.kick_is) (set_flags q f true q.flush_kick false 0 v);
  }
  step-Answers q f notifies v = record {
    rest = notify_consumer q;
    result = refl;
    represents = flags-Represents q f false q.producers_asleep v;
  }
  step-Answers q f kicks v = record {
    rest = kick_for_flush q;
    result = refl;
    represents = rw (← v.stop_is) (set_flags q f q.stop_requested true false q.producers_asleep v);
  }
  step-Answers q f waits v = waits-Answers q f v

  -- The answers to the rest of the calls are of the code's run.
  run-Answers :
      (q : Queue A) (f : Fifo A) (cs : List (Call A))
      → Represents q f
      → run q cs ≡ some (Fifo.run f cs)
  unfolding run Fifo.run
  run-Answers q f [] v = refl
  run-Answers q f (c ∷ cs) v =
      let a = step-Answers q f c v in
      rw (a.result, run) (rw (run-Answers a.rest (Fifo.step f c).1 cs a.represents))

  -- A queue made for any capacity that a `size_t` holds answers every sequence of calls as the
  -- bounded FIFO does that holds as many records (one, if the capacity asked for is zero), and
  -- never reads a slot that holds no record.
  pub run_refines :
      (capacity : ℕ) (policy : OverflowPolicy) (calls : List (Call A))
      → capacity < size_mod
      → run (new_queue capacity policy) calls ≡ some (Fifo.run (new_fifo capacity policy) calls)
  run_refines capacity policy calls h = run-Answers _ _ calls (new-Represents capacity policy h)
