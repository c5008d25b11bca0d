-- ===== src/Async/FlushWait/Heard.antt =====
-- In the worker's loop no notice that a flush is done is missed.
use mathlib.Core.Option.{some-injective}
use sim_logger.Prelude.{
  ℕ, ◌≤◌, true, List, [], ◌∷◌, Option, none, some, ◌≡◌, ◌≢◌, refl, sym, ap, ◌∙◌, subst, arith, ◌⊎◌,
  inl, inr, Bool-cases, leb, ◌==◌, ==_iff,
}
use sim_logger.Async.FlushWait.{
  FlushWait, Place, arriving, holding, refused, asleep, returned, Notifier, idle, storing, locking,
  notifying, final_storing, final_notifying, ended, put_place, woken, when_free, thread_in,
  notify_in, acknowledge, WaitEvent, by_thread, by_worker, acknowledges, wait_step, wait_run,
  in_loop, notice_due,
}

-- A thread whose flush is done does not sleep on, nor is about to sleep past the notice.
record Heard (s : FlushWait) : Type 0 where
  loop : in_loop s.notifier ≡ true
  sleeper : (j : ℕ) → s.places j ≡ asleep → s.gens j ≤ s.done → notice_due s.notifier ≡ true
  tests : (j : ℕ) → s.places j ≡ holding → s.owner ≡ some j
  owns : (j : ℕ) → s.places j ≡ refused → s.owner ≡ some j
  drowsy : (j : ℕ) → s.places j ≡ refused → s.gens j ≤ s.done → s.notifier ≡ locking

put_place_cases :
    (i j : ℕ) (p q : Place) (s : FlushWait)
    → put_place i p s j ≡ q
    → ((j ≡ i) × (p ≡ q)) ⊎ ((j ≢ i) × (s.places j ≡ q))
unfolding put_place
put_place_cases i j p q s e = elim (Bool-cases (j == i)) [
  | inl y ↦ inl ((==_iff j i).0 y, rw y at e)
  | inr x ↦ inr ((λ z. cc ((==_iff j i).1 z)), rw x at e)
]

when_free-Heard :
    (o : Option ℕ) (taken waiting : FlushWait)
    → (o ≡ none → Heard taken)
    → Heard waiting
    → Heard (when_free o taken waiting)
unfolding when_free
when_free-Heard none taken waiting f h = f refl
when_free-Heard (some i) taken waiting f h = h

-- Two threads do not hold the mutex at once.
one_owner : (o : Option ℕ) (i j : ℕ) → o ≡ some i → o ≡ some j → j ≡ i
one_owner o i j e f = some-injective j i (sym f ∙ e)

thread_in-Heard :
    (p : Place) (i : ℕ) (s : FlushWait) → s.places i ≡ p → Heard s → Heard (thread_in p i s)
unfolding thread_in notice_due
thread_in-Heard arriving i s here h =
    when_free-Heard s.owner _ s
      (λ e. record {
        loop = h.loop;
        sleeper = λ j at. elim (put_place_cases i j holding asleep s at) [
          | inl (_, z) ↦ cc
          | inr (_, was) ↦ h.sleeper j was
        ];
        tests = λ j at. elim (put_place_cases i j holding holding s at) [
          | inl (it, _) ↦ ap some (sym it)
          | inr (_, was) ↦ cc (h.tests j was)
        ];
        owns = λ j at. elim (put_place_cases i j holding refused s at) [
          | inl (_, z) ↦ cc
          | inr (_, was) ↦ cc (h.owns j was)
        ];
        drowsy = λ j at. elim (put_place_cases i j holding refused s at) [
          | inl (_, z) ↦ cc
          | inr (_, was) ↦ h.drowsy j was
        ];
      })
      h
thread_in-Heard holding i s here h = elim (Bool-cases (leb (s.gens i) s.done)) [
  | inl e ↦ rw e (record {
    loop = h.loop;
    sleeper = λ j at. elim (put_place_cases i j returned asleep s at) [
      | inl (_, z) ↦ cc
      | inr (_, was) ↦ h.sleeper j was
    ];
    tests = λ j at. elim (put_place_cases i j returned holding s at) [
      | inl (_, z) ↦ cc
      | inr (other, was) ↦ absurd (other (one_owner s.owner i j (h.tests i here) (h.tests j was)))
    ];
    owns = λ j at. elim (put_place_cases i j returned refused s at) [
      | inl (_, z) ↦ cc
      | inr (other, was) ↦ absurd (other (one_owner s.owner i j (h.tests i here) (h.owns j was)))
    ];
    drowsy = λ j at. elim (put_place_cases i j returned refused s at) [
      | inl (_, z) ↦ cc
      | inr (_, was) ↦ h.drowsy j was
    ];
  })
  | inr e ↦ rw e (record {
    loop = h.loop;
    sleeper = λ j at. elim (put_place_cases i j refused asleep s at) [
      | inl (_, z) ↦ cc
      | inr (_, was) ↦ h.sleeper j was
    ];
    tests = λ j at. elim (put_place_cases i j refused holding s at) [
      | inl (_, z) ↦ cc
      | inr (_, was) ↦ h.tests j was
    ];
    owns = λ j at. elim (put_place_cases i j refused refused s at) [
      | inl (it, _) ↦ h.tests i here ∙ ap some (sym it)
      | inr (_, was) ↦ h.owns j was
    ];
    drowsy = λ j at served. elim (put_place_cases i j refused refused s at) [
      | inl (it, _) ↦ absurd (ground (arith, e, ap s.gens it, served))
      | inr (_, was) ↦ h.drowsy j was served
    ];
  })
]
thread_in-Heard refused i s here h = record {
  loop = h.loop;
  sleeper = λ j at served. elim (put_place_cases i j asleep asleep s at) [
    | inl (it, _) ↦ ap notice_due (h.drowsy i here (subst (λ k. s.gens k ≤ s.done) it served))
    | inr (_, was) ↦ h.sleeper j was served
  ];
  tests = λ j at. elim (put_place_cases i j asleep holding s at) [
    | inl (_, z) ↦ cc
    | inr (other, was) ↦ absurd (other (one_owner s.owner i j (h.owns i here) (h.tests j was)))
  ];
  owns = λ j at. elim (put_place_cases i j asleep refused s at) [
    | inl (_, z) ↦ cc
    | inr (other, was) ↦ absurd (other (one_owner s.owner i j (h.owns i here) (h.owns j was)))
  ];
  drowsy = λ j at. elim (put_place_cases i j asleep refused s at) [
    | inl (_, z) ↦ cc
    | inr (_, was) ↦ h.drowsy j was
  ];
}
thread_in-Heard asleep i s here h = h
thread_in-Heard returned i s here h = h

-- What a place was before a notice
woken_was : (p q : Place) → woken p ≡ q → q ≢ arriving → p ≡ q
unfolding woken
woken_was arriving q e n = e
woken_was holding q e n = e
woken_was refused q e n = e
woken_was asleep q e n = absurd (n (sym e))
woken_was returned q e n = e

nobody_sleeps : (p : Place) → woken p ≢ asleep
unfolding woken
nobody_sleeps arriving = λ z. cc
nobody_sleeps holding = λ z. cc
nobody_sleeps refused = λ z. cc
nobody_sleeps asleep = λ z. cc
nobody_sleeps returned = λ z. cc

notify_in-Heard : (n : Notifier) (s : FlushWait) → s.notifier ≡ n → Heard s → Heard (notify_in n s)
unfolding notify_in notice_due in_loop
notify_in-Heard idle s here h = h
notify_in-Heard (storing want) s here h = record {
  loop = refl;
  sleeper = λ j at served. refl;
  tests = h.tests;
  owns = h.owns;
  drowsy = λ j at served. refl;
}
notify_in-Heard locking s here h =
    when_free-Heard s.owner _ s
      (λ e. record {
        loop = refl;
        sleeper = λ j at served. refl;
        tests = λ j at. cc (h.tests j at);
        owns = λ j at. cc (h.owns j at);
        drowsy = λ j at served. cc (h.owns j at);
      })
      h
notify_in-Heard notifying s here h = record {
  loop = refl;
  sleeper = λ j at served. absurd (nobody_sleeps (s.places j) at);
  tests = λ j at. h.tests j (woken_was (s.places j) holding at (λ z. cc));
  owns = λ j at. h.owns j (woken_was (s.places j) refused at (λ z. cc));
  drowsy = λ j at served. cc (h.drowsy j (woken_was (s.places j) refused at (λ z. cc)) served);
}
notify_in-Heard (final_storing want) s here h = cc (ap in_loop here, h.loop)
notify_in-Heard final_notifying s here h = cc (ap in_loop here, h.loop)
notify_in-Heard ended s here h = cc (ap in_loop here, h.loop)

acknowledge-Heard :
    (n : Notifier) (s : FlushWait) (want : ℕ)
    → s.notifier ≡ n
    → Heard s
    → Heard (acknowledge n want s)
unfolding acknowledge in_loop notice_due
acknowledge-Heard idle s want here h = record {
  loop = refl;
  sleeper = λ j at served. cc (h.sleeper j at served, ap notice_due here);
  tests = h.tests;
  owns = h.owns;
  drowsy = λ j at served. cc (h.drowsy j at served, here);
}
acknowledge-Heard (storing w) s want here h = h
acknowledge-Heard locking s want here h = h
acknowledge-Heard notifying s want here h = h
acknowledge-Heard (final_storing w) s want here h = h
acknowledge-Heard final_notifying s want here h = h
acknowledge-Heard ended s want here h = h

step-Heard : (s : FlushWait) (e : WaitEvent) → Heard s → Heard (wait_step s e)
unfolding wait_step
step-Heard s (by_thread i) h = thread_in-Heard (s.places i) i s refl h
step-Heard s by_worker h = notify_in-Heard s.notifier s refl h
step-Heard s (acknowledges want) h = acknowledge-Heard s.notifier s want refl h

run-Heard : (s : FlushWait) (es : List WaitEvent) → Heard s → Heard (wait_run s es)
unfolding wait_run
run-Heard s [] h = h
run-Heard s (e ∷ es) h = run-Heard (wait_step s e) es (step-Heard s e h)

-- Let the threads that flush be about to lock their mutex and the worker be in its loop, acknowledging
-- nothing. Then after any steps of the threads and the worker, whenever the worker is done with its
-- notices, no thread whose flush is done sleeps, nor has seen its test fail and is about to sleep.
pub no_flush_sleeps_on :
    (s : FlushWait) (es : List WaitEvent) (i : ℕ)
    → ((j : ℕ) → s.places j ≡ arriving)
    → s.notifier ≡ idle
    → (wait_run s es).notifier ≡ idle
    → (wait_run s es).gens i ≤ (wait_run s es).done
    → ((wait_run s es).places i ≢ asleep) × ((wait_run s es).places i ≢ refused)
unfolding in_loop notice_due
no_flush_sleeps_on s es i fresh quiet resting served =
    let h = run-Heard s es (record {
      loop = ap in_loop quiet;
      sleeper = λ j at. cc (fresh j, at);
      tests = λ j at. cc (fresh j, at);
      owns = λ j at. cc (fresh j, at);
      drowsy = λ j at. cc (fresh j, at);
    }) in
    (
      λ at. cc (h.sleeper i at served, ap notice_due resting),
      λ at. cc (h.drowsy i at served, resting),
    )
