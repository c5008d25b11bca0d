-- ===== src/Queue/Inv.antt =====
-- The representation invariant of the ring buffer, stated against the records that it holds.
use native.Mathlib.Nat.{mod-add-mod}
use sim_logger.Prelude.{
  Bool, ℕ, zero, suc, ◌+◌, ◌-◌, ◌%◌, ◌≤◌, ◌<◌, List, [], ◌∷◌, ◌++◌, map, Option, none, some, ◌≡◌,
  refl, ap, ◌∙◌, arith, length, get_elem?-set_self, set, replicate, length-append, length-replicate,
  length-set,
}
use sim_logger.Queue.{Queue, add_size, sub_size, size_mod, push_unlocked, pop_oldest_unlocked}
use sim_logger.Queue.Ring.{Slots, Slots-set_beyond, Slots-set, Slots-snoc, full_round}

module _ {ℓ} {A : Type ℓ} where
  -- The values of all slots, from the head round to the head again.
  abbrev pub layout : ℕ → List A → List (Option A)
  layout n [] = replicate n none
  layout n (x ∷ xs) = some x ∷ layout n xs

  -- The buffer of `q` holds `xs`, oldest first, and its other slots are empty.
  pub record Holds (q : Queue A) (xs : List A) : Type ℓ where
    pub nonzero : 0 < q.capacity
    pub small : q.capacity < size_mod
    pub sized : length q.buffer ≡ q.capacity
    pub head_in : q.head < q.capacity
    pub tail_is : q.tail ≡ (q.head + q.count) % q.capacity
    pub count_is : q.count ≡ length xs
    pub fits : q.count ≤ q.capacity
    pub slots : Slots q.buffer q.capacity q.head (layout (q.capacity - q.count) xs)

  layout-snoc : (n : ℕ) (xs : List A) → layout n xs ++ (none ∷ []) ≡ layout (suc n) xs
  layout-snoc zero [] = refl
  layout-snoc (suc n) [] = ap (◌∷◌ none) (layout-snoc n [])
  layout-snoc n (x ∷ xs) = ap (◌∷◌ (some x)) (layout-snoc n xs)

  layout-append : (n : ℕ) (xs : List A) → layout n xs ≡ map some xs ++ replicate n none
  layout-append n [] = refl
  layout-append n (x ∷ xs) = ap (◌∷◌ (some x)) (layout-append n xs)

  layout-push :
      (n : ℕ) (xs : List A) (r : A)
      → layout n (xs ++ (r ∷ [])) ≡ map some xs ++ (some r ∷ replicate n none)
  layout-push n [] r = refl
  layout-push n (x ∷ xs) r = ap (◌∷◌ (some x)) (layout-push n xs r)

  length-some : (xs : List A) → length (map some xs) ≡ length xs
  length-some [] = refl
  length-some (x ∷ xs) = ap suc (length-some xs)

  length-layout : (n : ℕ) (xs : List A) → length (layout n xs) ≡ length xs + n
  length-layout n [] = length-replicate n none ∙ omega arith
  length-layout n (x ∷ xs) = omega (arith, length-layout n xs)

  module _ (q : Queue A) (xs : List A) (r : A) (h : Holds q xs) (room : q.count < q.capacity) where
    left : ℕ
    left = q.capacity - (q.count + 1)

    push-Slots :
        Slots (set q.buffer q.tail (some r)) q.capacity q.head (layout left (xs ++ (r ∷ [])))
    unfolding left
    push-Slots = rw (layout-push left xs r) (
        Slots-set q.buffer q.capacity q.head q.tail (map some xs) none (some r)
          (replicate left none) (omega (arith, h.sized)) h.head_in
          (rw (length-some xs, ← h.count_is) h.tail_is)
          (omega (arith, length-some xs, h.count_is, length-replicate {A = Option A} left none))
          (rw room_left at (rw layout-append at h.slots)))
      where
        room_left : q.capacity - q.count ≡ suc left
        room_left = omega arith

    pub push-Holds : Holds (push_unlocked q r) (xs ++ (r ∷ []))
    unfolding push_unlocked left
    push-Holds = record {
      nonzero = h.nonzero;
      small = h.small;
      sized = length-set q.buffer q.tail (some r) ∙ h.sized;
      head_in = h.head_in;
      tail_is =
          rw (tail_one, count_one, h.tail_is)
            (rw mod-add-mod (ap (λ n. n % q.capacity) (omega arith)));
      count_is = omega (arith, count_one, h.count_is, length-append xs (r ∷ []));
      fits = omega (arith, count_one);
      slots = rw count_one push-Slots;
    }
      where
        count_one : add_size q.count 1 ≡ q.count + 1
        count_one = omega arith

        tail_one : add_size q.tail 1 ≡ q.tail + 1
        tail_one = omega (arith, h.tail_is, h.small, h.nonzero)

  module _ (q : Queue A) (x : A) (xs : List A) (h : Holds q (x ∷ xs)) where
    pop-Slots :
        Slots
          (set q.buffer q.head none)
          q.capacity
          ((q.head + 1) % q.capacity)
          (layout (suc (q.capacity - q.count)) xs)
    pop-Slots = rw (← layout-snoc (q.capacity - q.count) xs) (
        Slots-snoc (set q.buffer q.head none) q.capacity ((q.head + 1) % q.capacity) q.head none
          (layout (q.capacity - q.count) xs) (omega arith)
          (rw whole (full_round q.capacity q.head h.head_in))
          (get_elem?-set_self q.buffer q.head none (omega arith))
          (Slots-set_beyond q.buffer q.capacity ((q.head + 1) % q.capacity) (q.capacity - 1) q.head
            none (layout (q.capacity - q.count) xs) (omega arith)
            (full_round q.capacity q.head h.head_in) (omega (arith, whole)) (omega arith)
            h.slots.1))
      where
        whole : length (layout (q.capacity - q.count) xs) ≡ q.capacity - 1
        whole = omega (arith, length-layout (q.capacity - q.count) xs, h.count_is, h.fits)

    pub pop-Holds : Holds (pop_oldest_unlocked q) xs
    unfolding pop_oldest_unlocked
    pop-Holds = record {
      nonzero = h.nonzero;
      small = h.small;
      sized = length-set q.buffer q.head none ∙ h.sized;
      head_in = omega arith;
      tail_is =
          h.tail_is
          ∙ rw (head_one, count_one, mod-add-mod) (ap (λ n. n % q.capacity) (omega arith));
      count_is = omega (arith, count_one, h.count_is);
      fits = omega (arith, count_one, h.count_is);
      slots = rw (head_one, count_one, freed) pop-Slots;
    }
      where
        count_one : sub_size q.count 1 ≡ q.count - 1
        count_one = omega arith

        head_one : add_size q.head 1 ≡ q.head + 1
        head_one = omega arith

        freed : q.capacity - (q.count - 1) ≡ suc (q.capacity - q.count)
        freed = omega arith

  -- The flags say nothing of the buffer.
  pub flags-Holds :
      (q : Queue A) (xs : List A) (stop kick consumer : Bool) (producers : ℕ)
      → Holds q xs
      → Holds
          (record q {
            stop_requested = stop;
            flush_kick = kick;
            consumer_asleep = consumer;
            producers_asleep = producers;
          })
          xs
  flags-Holds q xs stop kick consumer producers h = record {
    nonzero = h.nonzero;
    small = h.small;
    sized = h.sized;
    head_in = h.head_in;
    tail_is = h.tail_is;
    count_is = h.count_is;
    fits = h.fits;
    slots = h.slots;
  }
