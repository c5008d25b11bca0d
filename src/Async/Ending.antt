-- ===== src/Async/Ending.antt =====
-- How the worker of a stopped sink ends: the steps behind its loop, and those that take a batch.
use sim_logger.Prelude.{
  ◌<◌, Bool, true, false, List, [], ◌∷◌, ◌++◌, ◌≡◌, refl, sym, ap, ◌∙◌, arith, length, append-nil,
}
use sim_logger.Queue.Inv.{Holds}
use sim_logger.Async.{
  AsyncSink, SinkCall, flush, Phase, waiting, draining, writing, checking, flushing, publishing,
  final_draining, final_writing, final_flushing, final_checking, final_publishing, finished,
  work_in, take_batch, call_wrapped,
}
use sim_logger.Async.Books.{delivered, in_hand, held}
use sim_logger.Async.Worker.{flush-held}
use sim_logger.Async.Reaches.{Reaches, now-Reaches, later-Reaches, batch-Reaches}

module _ {A : Type 0} where
  -- The worker is inside its loop.
  unfoldable pub is_looping : Phase A → Bool
  is_looping waiting = true
  is_looping draining = true
  is_looping (writing rs) = true
  is_looping checking = true
  is_looping (flushing want) = true
  is_looping (publishing want) = true
  is_looping _ = false

  -- A stopped sink whose queue holds `xs` and that is to deliver `all` in the end.
  pub record Stopped (all : List A) (s : AsyncSink A) (xs : List A) : Type 0 where
    pub holds : Holds s.queue xs
    pub stop : s.queue.stop_requested ≡ true
    pub awake : s.queue.consumer_asleep ≡ false
    pub batched : 0 < s.max_batch
    pub due : held s xs ≡ all

-- The worker has finished: it has delivered `all`, made a flush the last call, and served every
-- request for a flush.
pub record Ended {A : Type 0} (all : List A) (s : AsyncSink A) : Type 0 where
  pub phase : s.phase ≡ finished
  pub delivers : delivered s.calls ≡ all
  pub before_flush : List (SinkCall A)
  pub flushes_last : s.calls ≡ before_flush ++ (flush ∷ [])
  pub served : s.flush_done_gen ≡ s.flush_request_gen

module _ {A : Type 0} (throws : List (SinkCall A) → SinkCall A → Bool) where
  -- Some steps of the worker alone end it.
  abbrev pub Ends : List A → AsyncSink A → Type 0
  Ends all s = Reaches throws (Ended all) s

  module _ {all : List A} where
    -- Behind the loop
    publishes_finally :
        (s : AsyncSink A)
        → s.phase ≡ final_publishing s.flush_request_gen
        → Stopped all s []
        → (cs : List (SinkCall A)) → s.calls ≡ cs ++ (flush ∷ [])
        → Ends all s
    unfolding work_in
    publishes_finally s here l cs last =
        later-Reaches throws s _ (final_publishing s.flush_request_gen) here refl (
          now-Reaches throws _ (record {
            phase = refl;
            delivers = sym (append-nil (delivered s.calls)) ∙ (rw here at l.due);
            before_flush = cs;
            flushes_last = last;
            served = refl;
          }))

    flushes_finally : (s : AsyncSink A) → s.phase ≡ final_flushing → Stopped all s [] → Ends all s
    unfolding work_in call_wrapped
    flushes_finally s here l = later-Reaches throws s _ final_flushing here refl (
        later-Reaches throws _ _ final_checking refl refl (
          publishes_finally _ refl
            (record {
              holds = l.holds;
              stop = l.stop;
              awake = l.awake;
              batched = l.batched;
              due = rw (flush-held throws s.calls) (rw here at l.due);
            })
            s.calls refl))

    -- A step that takes a batch.
    pub take_ends :
        (found : List A → Phase A) (drained p : Phase A) (s : AsyncSink A) (xs : List A)
        → ((rs : List A) → in_hand (found rs) ≡ rs)
        → in_hand drained ≡ []
        → in_hand p ≡ []
        → s.phase ≡ p
        → work_in throws p s ≡ take_batch found drained s
        → Stopped all s xs
        → (xs ≡ [] → (s1 : AsyncSink A) → s1.phase ≡ drained → Stopped all s1 [] → Ends all s1)
        → ((s1 : AsyncSink A) (rs ys : List A)
            → length ys < length xs
            → s1.phase ≡ found rs
            → Stopped all s1 ys
            → Ends all s1)
        → Ends all s
    take_ends found drained p s xs f g h here e l k_empty k_found =
        let nothing_in_hand : [] ≡ in_hand s.phase = sym h ∙ ap in_hand (sym here) in
        batch-Reaches throws found drained p s xs here e l.holds l.batched
          (λ none_left q holds stop consumer. k_empty none_left _ refl (record {
            holds = holds;
            stop = stop ∙ l.stop;
            awake = consumer ∙ l.awake;
            batched = l.batched;
            due =
                ap (λ ys. delivered s.calls ++ (ys ++ [])) (g ∙ nothing_in_hand)
                ∙ ap (λ ys. delivered s.calls ++ (in_hand s.phase ++ ys)) (sym none_left)
                ∙ l.due;
          }))
          (λ q rs ys split short holds stop consumer. k_found _ rs ys short refl (record {
            holds = holds;
            stop = stop ∙ l.stop;
            awake = consumer ∙ l.awake;
            batched = l.batched;
            due =
                ap (λ zs. delivered s.calls ++ (zs ++ ys)) (f rs)
                ∙ ap (λ zs. delivered s.calls ++ zs) split
                ∙ ap (λ zs. delivered s.calls ++ (zs ++ xs)) nothing_in_hand
                ∙ l.due;
          }))

    pub drains_finally :
        (s : AsyncSink A) → s.phase ≡ final_draining → Stopped all s [] → Ends all s
    unfolding work_in
    drains_finally s here l =
        take_ends final_writing final_flushing final_draining s [] (λ rs. refl) refl refl here refl
          l (λ _ s1 there l1. flushes_finally s1 there l1)
          (λ s1 rs ys short there l1. absurd (omega (arith, short)))
