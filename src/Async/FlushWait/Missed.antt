-- ===== src/Async/FlushWait/Missed.antt =====
-- Behind the worker's loop the notice that a flush is done can be missed.
use sim_logger.Prelude.{
  ℕ, ◌≤◌, List, [], ◌∷◌, Option, none, some, ◌≡◌, ◌≢◌, refl, sym, ap, ◌∙◌, subst, inl, inr,
  Bool-cases, leb, ◌==◌, ==_iff, if_both,
}
use sim_logger.Async.FlushWait.{
  FlushWait, Place, arriving, holding, refused, asleep, returned, final_storing, final_notifying,
  ended, put_place, woken, when_free, thread_in, notify_in, acknowledge, WaitEvent, by_thread,
  by_worker, acknowledges, wait_step, wait_run,
}

-- The thread sleeps, its flush is done, and the worker has ended.
record Stranded (i : ℕ) (s : FlushWait) : Type 0 where
  sleeps : s.places i ≡ asleep
  served : s.gens i ≤ s.done
  over : s.notifier ≡ ended

put_other :
    (i j : ℕ) (p : Place) (s : FlushWait)
    → s.places i ≡ asleep
    → s.places j ≢ asleep
    → put_place j p s i ≡ asleep
unfolding put_place
put_other i j p s at other = elim (Bool-cases (i == j)) [
  | inl y ↦ absurd (other (ap s.places (sym ((==_iff i j).0 y)) ∙ at))
  | inr x ↦ rw x at
]

when_free-Stranded :
    (i : ℕ) (o : Option ℕ) (taken waiting : FlushWait)
    → Stranded i taken
    → Stranded i waiting
    → Stranded i (when_free o taken waiting)
unfolding when_free
when_free-Stranded i none taken waiting a b = a
when_free-Stranded i (some k) taken waiting a b = b

thread_in-Stranded :
    (p : Place) (i j : ℕ) (s : FlushWait)
    → s.places j ≡ p
    → Stranded i s
    → Stranded i (thread_in p j s)
unfolding thread_in
thread_in-Stranded arriving i j s here h =
    when_free-Stranded i s.owner _ s
      (record {
        sleeps = put_other i j holding s h.sleeps (λ z. cc (here, z));
        served = h.served;
        over = h.over;
      })
      h
thread_in-Stranded holding i j s here h =
    if_both (Stranded i) (leb (s.gens j) s.done)
      (record {
        sleeps = put_other i j returned s h.sleeps (λ z. cc (here, z));
        served = h.served;
        over = h.over;
      })
      (record {
        sleeps = put_other i j refused s h.sleeps (λ z. cc (here, z));
        served = h.served;
        over = h.over;
      })
thread_in-Stranded refused i j s here h = record {
  sleeps = put_other i j asleep s h.sleeps (λ z. cc (here, z));
  served = h.served;
  over = h.over;
}
thread_in-Stranded asleep i j s here h = h
thread_in-Stranded returned i j s here h = h

step-Stranded : (i : ℕ) (s : FlushWait) (e : WaitEvent) → Stranded i s → Stranded i (wait_step s e)
unfolding wait_step notify_in acknowledge
step-Stranded i s (by_thread j) h = thread_in-Stranded (s.places j) i j s refl h
step-Stranded i s by_worker h = subst (λ n. Stranded i (notify_in n s)) (sym h.over) h
step-Stranded i s (acknowledges want) h =
    subst (λ n. Stranded i (acknowledge n want s)) (sym h.over) h

run-Stranded :
    (i : ℕ) (s : FlushWait) (es : List WaitEvent) → Stranded i s → Stranded i (wait_run s es)
unfolding wait_run
run-Stranded i s [] h = h
run-Stranded i s (e ∷ es) h = run-Stranded i (wait_step s e) es (step-Stranded i s e h)

put_place_self : (i : ℕ) (p : Place) (s : FlushWait) → put_place i p s i ≡ p
unfolding put_place
put_place_self i p s = rw ((==_iff i i).1 refl)

missed :
    (s : FlushWait) (i want : ℕ)
    → s.places i ≡ refused
    → s.notifier ≡ final_storing want
    → s.gens i ≤ want
    → Stranded i (wait_run s (by_worker ∷ by_worker ∷ by_thread i ∷ []))
unfolding wait_run wait_step notify_in thread_in woken put_place
missed s i want at final small =
    let stored = record s { done = want; notifier = final_notifying } in
    let noticed = record stored { places = λ j. woken (s.places j); notifier = ended } in
    subst
      (λ t. Stranded i (thread_in ((notify_in t.notifier t).places i) i (notify_in t.notifier t)))
      (ap (λ n. notify_in n s) (sym final))
      (subst (λ p. Stranded i (thread_in (woken p) i noticed)) (sym at)
        (record { sleeps = put_place_self i asleep noticed; served = small; over = refl }))

-- Let a thread's test have failed, so that it is about to sleep, and let the worker, behind its loop, be
-- about to store a generation that is not below the thread's. When the worker stores, notifies and
-- ends before the thread sleeps, then after any steps of all threads the thread still sleeps, though
-- its flush is done and the worker has ended.
pub final_notice_missed :
    (s : FlushWait) (i want : ℕ) (es : List WaitEvent)
    → s.places i ≡ refused
    → s.notifier ≡ final_storing want
    → s.gens i ≤ want
    → let s' = wait_run (wait_run s (by_worker ∷ by_worker ∷ by_thread i ∷ [])) es in
      (s'.places i ≡ asleep) × (s'.gens i ≤ s'.done) × (s'.notifier ≡ ended)
final_notice_missed s i want es at final small =
    let h = run-Stranded i _ es (missed s i want at final small) in (h.sleeps, h.served, h.over)
