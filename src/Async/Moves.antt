-- ===== src/Async/Moves.antt =====
-- What one step of the worker does to the calls, the generations of flushes and the worker's place.
use mathlib.Core.Option.{some-injective}
use sim_logger.Prelude.{
  ℕ, ◌≤◌, ◌<◌, Bool, true, false, List, [], ◌∷◌, ◌++◌, some, ◌≡◌, refl, sym, ◌∙◌, arith, subst,
  Bool-cases, ◌⊎◌, inl, inr, if◌then◌else◌, if_both, ltb, ◌==◌, length, take, append-nil,
  length-take, eq_nil_of_length,
}
use sim_logger.Queue.{wait_for_work, has_work}
use sim_logger.Queue.Inv.{Holds}
use sim_logger.Queue.Batch.{dequeue_batch-Dequeued}
use sim_logger.Async.{
  AsyncSink, SinkCall, flush, Phase, waiting, draining, writing, checking, flushing, publishing,
  final_draining, final_writing, final_flushing, final_checking, final_publishing, finished,
  work_in, take_batch, call_wrapped, wait_round,
}
use sim_logger.Async.Books.{in_hand}

module _ {A : Type 0} where
  -- The request for a flush that the worker is serving.
  unfoldable pub wanted : Phase A → ℕ
  wanted (flushing want) = want
  wanted (publishing want) = want
  wanted (final_publishing want) = want
  wanted _ = 0

  -- The worker is to load the request again before it serves the generation `gen`.
  unfoldable pub before_check : ℕ → Phase A → Bool
  before_check gen waiting = true
  before_check gen draining = true
  before_check gen (writing rs) = true
  before_check gen (flushing want) = ltb want gen
  before_check gen (publishing want) = ltb want gen
  before_check gen final_draining = true
  before_check gen (final_writing rs) = true
  before_check gen _ = false

  -- The worker is not past the flush that serves the generation `gen`.
  unfoldable pub before_flush : ℕ → Phase A → Bool
  before_flush gen (publishing want) = ltb want gen
  before_flush gen final_checking = false
  before_flush gen (final_publishing want) = false
  before_flush gen finished = false
  before_flush gen _ = true

  pub before_check-before_flush :
      (gen : ℕ) (p : Phase A) → before_check gen p ≡ true → before_flush gen p ≡ true
  unfolding before_check before_flush
  before_check-before_flush gen waiting e = refl
  before_check-before_flush gen draining e = refl
  before_check-before_flush gen (writing rs) e = refl
  before_check-before_flush gen checking e = refl
  before_check-before_flush gen (flushing want) e = refl
  before_check-before_flush gen (publishing want) e = e
  before_check-before_flush gen final_draining e = refl
  before_check-before_flush gen (final_writing rs) e = refl
  before_check-before_flush gen final_flushing e = refl
  before_check-before_flush gen final_checking e = e
  before_check-before_flush gen (final_publishing want) e = e
  before_check-before_flush gen finished e = e

  -- A step from the phase `p`, where the queue held `xs`.
  pub record Moved (p : Phase A) (xs : List A) (s s' : AsyncSink A) : Type 0 where
    pub more : List (SinkCall A)
    pub calls : s'.calls ≡ s.calls ++ more
    pub asked : s'.flush_request_gen ≡ s.flush_request_gen
    pub gens :
        s.flush_done_gen ≤ s.flush_request_gen
        → wanted p ≤ s.flush_request_gen
        → (s'.flush_done_gen ≤ s.flush_request_gen) × (wanted s'.phase ≤ s.flush_request_gen)
    pub before :
        (gen : ℕ)
        → s.flush_done_gen < gen
        → before_check gen p ≡ true
        → ((s'.flush_done_gen < gen) × (before_check gen s'.phase ≡ true))
          ⊎ ((xs ≡ []) × (in_hand p ≡ []))
    pub flushes :
        (gen : ℕ)
        → s.flush_done_gen < gen
        → before_flush gen p ≡ true
        → ((s'.flush_done_gen < gen) × (before_flush gen s'.phase ≡ true)) ⊎ (more ≡ flush ∷ [])

  -- A step that calls nothing and serves nothing.
  quiet-Moved :
      (p : Phase A) (xs : List A) (s s' : AsyncSink A)
      → s'.calls ≡ s.calls
      → s'.flush_request_gen ≡ s.flush_request_gen
      → s'.flush_done_gen ≡ s.flush_done_gen
      → wanted s'.phase ≤ s.flush_request_gen
      → ((gen : ℕ)
          → before_check gen p ≡ true
          → (before_check gen s'.phase ≡ true) ⊎ ((xs ≡ []) × (in_hand p ≡ [])))
      → ((gen : ℕ) → before_flush gen p ≡ true → before_flush gen s'.phase ≡ true)
      → Moved p xs s s'
  quiet-Moved p xs s s' same_calls same_request same_done small moves stays = record {
    more = [];
    calls = same_calls ∙ sym (append-nil s.calls);
    asked = same_request;
    gens = λ done _. (omega (arith, same_done, done), small);
    before = λ gen less at. elim (moves gen at) [
      | inl now ↦ inl (omega (arith, same_done, less), now)
      | inr all ↦ inr all
    ];
    flushes = λ gen less at. inl (omega (arith, same_done, less), stays gen at);
  }

  take_batch-Moved :
      (found : List A → Phase A) (drained p : Phase A) (s s' : AsyncSink A) (xs : List A)
      → Holds s.queue xs
      → 0 < s.max_batch
      → in_hand p ≡ []
      → ((rs : List A) → wanted (found rs) ≡ 0)
      → wanted drained ≡ 0
      → ((gen : ℕ) (rs : List A) → before_check gen (found rs) ≡ true)
      → ((gen : ℕ) → before_flush gen drained ≡ true)
      → take_batch found drained s ≡ some s'
      → Moved p xs s s'
  unfolding take_batch
  take_batch-Moved found drained p s s' xs holds batched free f g h k e =
      let d = dequeue_batch-Dequeued s.queue xs [] s.max_batch holds in
      let n = length (take s.max_batch xs) in
      let next : Phase A = if ltb 0 n then found (take s.max_batch xs) else drained in
      let taken : take_batch found drained s ≡ some (record s { queue = d.rest; phase = next }) =
        rw (d.result, take_batch) in
      subst (Moved p xs s) (some-injective _ _ (sym taken ∙ e)) (
        quiet-Moved p xs s _ refl refl refl
          (elim (Bool-cases (ltb 0 n)) [
            | inl some_taken ↦ rw some_taken (omega (arith, f (take s.max_batch xs)))
            | inr nothing_taken ↦ rw nothing_taken (omega (arith, g))
          ])
          (λ gen _. elim (Bool-cases (ltb 0 n)) [
            | inl some_taken ↦ inl (rw some_taken (h gen (take s.max_batch xs)))
            | inr nothing_taken ↦ inr (
              eq_nil_of_length xs
                  (ground (arith, nothing_taken, batched, length-take s.max_batch xs)),
              free,
            )
          ])
          (λ gen _. elim (Bool-cases (ltb 0 n)) [
            | inl some_taken ↦ rw some_taken (
                before_check-before_flush gen (found (take s.max_batch xs))
                  (h gen (take s.max_batch xs)))
            | inr nothing_taken ↦ rw nothing_taken (k gen)
          ]))

  wait_round-Moved :
      (s : AsyncSink A) (xs : List A) → s.phase ≡ waiting → Moved waiting xs s (wait_round s)
  unfolding wait_round wait_for_work wanted before_check before_flush
  wait_round-Moved s xs here =
      if_both (Moved waiting xs s) s.queue.consumer_asleep
        (quiet-Moved waiting xs s s refl refl refl (rw here (omega arith)) (λ _ _. inl (rw here))
          (λ _ _. rw here))
        (elim (Bool-cases (has_work s.queue)) [
          | inl e ↦ rw e (
              quiet-Moved waiting xs s _ refl refl refl (ground arith) (λ gen _. inl (ground arith))
                (λ gen _. ground arith))
          | inr e ↦ rw e (
              quiet-Moved waiting xs s _ refl refl refl (omega arith) (λ _ _. inl refl)
                (λ _ _. refl))
        ])

module _ {A : Type 0} (throws : List (SinkCall A) → SinkCall A → Bool) where
  pub work_in-Moved :
      (p : Phase A) (s s' : AsyncSink A) (xs : List A)
      → s.phase ≡ p
      → Holds s.queue xs
      → 0 < s.max_batch
      → work_in throws p s ≡ some s'
      → Moved p xs s s'
  unfolding work_in call_wrapped wanted before_check before_flush
  work_in-Moved waiting s s' xs here holds batched e =
      subst (Moved waiting xs s) (some-injective _ _ e) (wait_round-Moved s xs here)
  work_in-Moved draining s s' xs here holds batched e =
      take_batch-Moved writing checking draining s s' xs holds batched refl (λ _. refl) refl
        (λ _ _. refl) (λ _. refl) e
  work_in-Moved (writing []) s s' xs here holds batched e =
      subst (Moved _ xs s) (some-injective _ _ e)
        (quiet-Moved _ xs s _ refl refl refl (omega arith) (λ _ _. inl refl) (λ _ _. refl))
  work_in-Moved (writing (r ∷ rs)) s s' xs here holds batched e =
      subst (Moved _ xs s) (some-injective _ _ e) (record {
        more = _;
        calls = refl;
        asked = refl;
        gens = λ a _. (a, omega arith);
        before = λ _ less _. inl (less, refl);
        flushes = λ _ less _. inl (less, refl);
      })
  work_in-Moved checking s s' xs here holds batched e =
      subst (Moved _ xs s) (some-injective _ _ e) (
        quiet-Moved checking xs s _ refl refl refl
          (elim (Bool-cases (s.flush_request_gen == s.last_seen_flush_gen)) [
            | inl old ↦ rw old (omega arith)
            | inr new ↦ rw new (omega arith)
          ])
          (λ _ at. cc)
          (λ _ _. elim (Bool-cases (s.flush_request_gen == s.last_seen_flush_gen)) [
            | inl old ↦ rw old
            | inr new ↦ rw new
          ]))
  work_in-Moved (flushing want) s s' xs here holds batched e =
      subst (Moved _ xs s) (some-injective _ _ e) (record {
        more = _;
        calls = refl;
        asked = refl;
        gens = λ a b. (a, b);
        before = λ _ less at. inl (less, at);
        flushes = λ _ _ _. inr refl;
      })
  work_in-Moved (publishing want) s s' xs here holds batched e =
      subst (Moved _ xs s) (some-injective _ _ e) (record {
        more = [];
        calls = sym (append-nil s.calls);
        asked = refl;
        gens = λ a b. (b, omega arith);
        before = λ gen less at. inl (ground (arith, at), refl);
        flushes = λ gen less at. inl (ground (arith, at), refl);
      })
  work_in-Moved final_draining s s' xs here holds batched e =
      take_batch-Moved final_writing final_flushing final_draining s s' xs holds batched refl
        (λ _. refl) refl (λ _ _. refl) (λ _. refl) e
  work_in-Moved (final_writing []) s s' xs here holds batched e =
      subst (Moved _ xs s) (some-injective _ _ e)
        (quiet-Moved _ xs s _ refl refl refl (omega arith) (λ _ _. inl refl) (λ _ _. refl))
  work_in-Moved (final_writing (r ∷ rs)) s s' xs here holds batched e =
      subst (Moved _ xs s) (some-injective _ _ e) (record {
        more = _;
        calls = refl;
        asked = refl;
        gens = λ a _. (a, omega arith);
        before = λ _ less _. inl (less, refl);
        flushes = λ _ less _. inl (less, refl);
      })
  work_in-Moved final_flushing s s' xs here holds batched e =
      subst (Moved _ xs s) (some-injective _ _ e) (record {
        more = _;
        calls = refl;
        asked = refl;
        gens = λ a _. (a, omega arith);
        before = λ _ less at. cc;
        flushes = λ _ _ _. inr refl;
      })
  work_in-Moved final_checking s s' xs here holds batched e =
      subst (Moved _ xs s) (some-injective _ _ e)
        (quiet-Moved final_checking xs s _ refl refl refl (omega arith) (λ _ at. cc) (λ _ at. cc))
  work_in-Moved (final_publishing want) s s' xs here holds batched e =
      subst (Moved _ xs s) (some-injective _ _ e) (record {
        more = [];
        calls = sym (append-nil s.calls);
        asked = refl;
        gens = λ a b. (b, omega arith);
        before = λ _ less at. cc;
        flushes = λ _ less at. cc;
      })
  work_in-Moved finished s s' xs here holds batched e =
      subst (Moved _ xs s) (some-injective _ _ e) (
        quiet-Moved finished xs s _ refl refl refl (rw here (omega arith)) (λ _ at. cc)
          (λ _ at. cc))
