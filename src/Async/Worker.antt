-- ===== src/Async/Worker.antt =====
-- The worker neither loses nor reorders records: its steps keep the books.
use sim_logger.Prelude.{
  ℕ, suc, Bool, true, false, List, [], ◌∷◌, ◌++◌, Option, some, ltb, if_both, ◌==◌, ◌≡◌, refl, ap,
  arith, length, append_assoc, append-nil, if◌then◌else◌, take, drop, take-append-drop,
}
use sim_logger.Queue.{wait_for_work}
use sim_logger.Queue.Wakeups.{dequeue-NoLostWakeup, step-NoLostWakeup}
use sim_logger.Async.Books.{Books, Books-move, delivered, in_hand, delivered-append}
use sim_logger.Queue.Calls
use sim_logger.Queue.Calls.{batch, waits}
use sim_logger.Queue.Batch.{dequeue_batch-Dequeued}
use sim_logger.Queue.Effects.{wait-policy, wait-Holds}
use sim_logger.Async.{
  AsyncSink, SinkCall, write, flush, Phase, waiting, draining, writing, checking, flushing,
  publishing, final_draining, final_writing, final_flushing, final_checking, final_publishing,
  finished, work_in, take_batch, call_wrapped, wait_round,
}

module _ {A : Type 0} where
  -- A step of the worker, with the books that it leaves.
  pub record Worked (r : Option (AsyncSink A)) (taken : List A) (n : ℕ) : Type 0 where
    pub rest : AsyncSink A
    pub result : r ≡ some rest
    pub books : Books rest taken n

  take_batch-Worked :
      (s : AsyncSink A) {taken : List A} {n : ℕ} (found : List A → Phase A) (drained : Phase A)
      → ((rs : List A) → in_hand (found rs) ≡ rs)
      → in_hand drained ≡ []
      → in_hand s.phase ≡ []
      → Books s taken n
      → Worked (take_batch found drained s) taken n
  unfolding take_batch Calls.step
  take_batch-Worked s found drained f g e b =
      let d = dequeue_batch-Dequeued s.queue b.items [] s.max_batch b.holds in
      record {
        rest = record s {
          queue = d.rest;
          phase =
              if ltb 0 (length (take s.max_batch b.items))
              then found (take s.max_batch b.items)
              else drained;
        };
        result = rw (d.result, take_batch);
        books =
            Books-move s _ b (drop s.max_batch b.items) d.holds
              (dequeue-NoLostWakeup s.queue b.items s.max_batch b.holds b.awake
                (batch (length (take s.max_batch b.items)) (take s.max_batch b.items)) d.rest
                (rw (d.result, Calls.step)))
              refl d.same.policy refl
              (rw (held_batch (take s.max_batch b.items), e)
                (ap (λ l. delivered s.calls ++ l) (take-append-drop s.max_batch b.items)));
      }
    where
      held_batch : (xs : List A) → in_hand (if ltb 0 (length xs) then found xs else drained) ≡ xs
      held_batch [] = g
      held_batch (x ∷ xs) =
          let some_taken : ltb 0 (suc (length xs)) ≡ true = ground arith in
          rw some_taken (f (x ∷ xs))

module _ {A : Type 0} (throws : List (SinkCall A) → SinkCall A → Bool) where
  pub write-held :
      (cs : List (SinkCall A)) (r : A) (rs xs : List A)
      → delivered (cs ++ (write r ∷ [])) ++ (rs ++ xs) ≡ delivered cs ++ ((r ∷ rs) ++ xs)
  write-held cs r rs xs =
      rw (delivered-append cs (write r ∷ [])) (append_assoc (delivered cs) (r ∷ []) (rs ++ xs))

  pub flush-held : (cs : List (SinkCall A)) → delivered (cs ++ (flush ∷ [])) ≡ delivered cs
  flush-held cs = rw (delivered-append cs (flush ∷ [])) (append-nil (delivered cs))

  no_batch :
      (p q : Bool)
      → in_hand {A = A} (if p then (if q then final_draining else draining) else waiting) ≡ []
  no_batch true true = refl
  no_batch true false = refl
  no_batch false q = refl

  wait_round-Books :
      (s : AsyncSink A) {taken : List A} {n : ℕ}
      → s.phase ≡ waiting
      → Books s taken n
      → Books (wait_round s) taken n
  unfolding wait_round Calls.step
  wait_round-Books s {taken} {n} e b =
      if_both (λ s'. Books s' taken n) s.queue.consumer_asleep b
        (Books-move s _ b b.items (wait-Holds s.queue b.items b.holds)
          (step-NoLostWakeup s.queue b.items waits _ _ b.holds b.awake refl) refl
          (wait-policy s.queue) refl (rw (no_batch (wait_for_work s.queue).0 _, e)))

  in_hand-checking :
      (b : Bool) (want : ℕ) → in_hand {A = A} (if b then waiting else flushing want) ≡ []
  in_hand-checking true want = refl
  in_hand-checking false want = refl

  pub work_in-Worked :
      (p : Phase A) (s : AsyncSink A) {taken : List A} {n : ℕ}
      → s.phase ≡ p
      → Books s taken n
      → Worked (work_in throws p s) taken n
  unfolding work_in call_wrapped
  work_in-Worked waiting s e b = record {
    rest = wait_round s;
    result = refl;
    books = wait_round-Books s e b;
  }
  work_in-Worked draining s e b = take_batch-Worked s writing checking (λ rs. refl) refl (rw e) b
  work_in-Worked (writing []) s e b = record {
    rest = _;
    result = refl;
    books = Books-move s _ b b.items b.holds b.awake refl refl refl (rw e);
  }
  work_in-Worked (writing (r ∷ rs)) s e b = record {
    rest = _;
    result = refl;
    books =
        Books-move s _ b b.items b.holds b.awake refl refl refl
          (rw e (write-held s.calls r rs b.items));
  }
  work_in-Worked checking s e b = record {
    rest = _;
    result = refl;
    books = Books-move s _ b b.items b.holds b.awake refl refl refl (
        rw
          (in_hand-checking (s.flush_request_gen == s.last_seen_flush_gen) s.flush_request_gen, e));
  }
  work_in-Worked (flushing want) s e b = record {
    rest = _;
    result = refl;
    books = Books-move s _ b b.items b.holds b.awake refl refl refl (rw (e, flush-held s.calls));
  }
  work_in-Worked (publishing want) s e b = record {
    rest = _;
    result = refl;
    books = Books-move s _ b b.items b.holds b.awake refl refl refl (rw e);
  }
  work_in-Worked final_draining s e b =
      take_batch-Worked s final_writing final_flushing (λ rs. refl) refl (rw e) b
  work_in-Worked (final_writing []) s e b = record {
    rest = _;
    result = refl;
    books = Books-move s _ b b.items b.holds b.awake refl refl refl (rw e);
  }
  work_in-Worked (final_writing (r ∷ rs)) s e b = record {
    rest = _;
    result = refl;
    books =
        Books-move s _ b b.items b.holds b.awake refl refl refl
          (rw e (write-held s.calls r rs b.items));
  }
  work_in-Worked final_flushing s e b = record {
    rest = _;
    result = refl;
    books = Books-move s _ b b.items b.holds b.awake refl refl refl (rw (e, flush-held s.calls));
  }
  work_in-Worked final_checking s e b = record {
    rest = _;
    result = refl;
    books = Books-move s _ b b.items b.holds b.awake refl refl refl (rw e);
  }
  work_in-Worked (final_publishing want) s e b = record {
    rest = _;
    result = refl;
    books = Books-move s _ b b.items b.holds b.awake refl refl refl (rw e);
  }
  work_in-Worked finished s e b = record { rest = s; result = refl; books = b }
