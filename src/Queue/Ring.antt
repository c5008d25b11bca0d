-- ===== src/Queue/Ring.antt =====
-- Slots of a circular buffer, read from an index on and going round at the capacity.
use native.Mathlib.Decide.{dec_lt}
use native.Mathlib.Nat.{mod-add-mod, mod-eq_of_lt, mod-eq-sub-mod, add-zero}
use sim_logger.Prelude.{
  ℕ, zero, suc, ◌+◌, ◌-◌, ◌%◌, ◌≤◌, ◌<◌, List, [], ◌∷◌, ◌++◌, some, ◌≡◌, ◌≢◌, sym, ap, ◌∙◌, arith,
  length, get_elem?, set, get_elem?-set_self, get_elem?-set_ne,
}

-- Fewer than `size` steps round the ring do not come back to the start.
add-mod-ne : {size h k : ℕ} → h < size → suc k < size → (h + suc k) % size ≢ h
add-mod-ne {size} {h} {k} hh hk = elim (dec_lt (h + suc k) size) [
  | yes p ↦ omega (arith, mod-eq_of_lt p)
  | no p ↦ omega (
    arith,
    mod-eq-sub-mod {n = h + suc k} {m = size} (omega arith),
    mod-eq_of_lt {n = h + suc k - size} {m = size} (omega arith),
  )
]

pub add-mod_once : (size h k : ℕ) → (h + suc k) % size ≡ ((h + 1) % size + k) % size
add-mod_once size h k = rw mod-add-mod (ap (λ n. n % size) (omega arith))

at_start : (size h i : ℕ) → h < size → i ≡ (h + 0) % size → i ≡ h
at_start size h i hh e = e ∙ rw add-zero (mod-eq_of_lt hh)

-- One less than a whole round takes the next index back to the start.
pub full_round : (size h : ℕ) → h < size → h ≡ ((h + 1) % size + (size - 1)) % size
full_round size h hh =
    sym (rw mod-add-mod (ground (arith, mod-eq_of_lt hh, mod-eq-sub-mod {n = h + size} {m = size})))

module _ {ℓ} {A : Type ℓ} where
  -- The slots from index `h` on hold these values.
  abbrev pub Slots : List A → ℕ → ℕ → List A → Type ℓ
  Slots buf size h [] = Unit
  Slots buf size h (v ∷ vs) = (get_elem? buf h ≡ some v) × Slots buf size ((h + 1) % size) vs

  pub Slots-append_right :
      (buf : List A) (size h i : ℕ) (us vs : List A)
      → h < size
      → i ≡ (h + length us) % size
      → Slots buf size h (us ++ vs)
      → Slots buf size i vs
  Slots-append_right buf size h i [] vs hh e s = rw (at_start size h i hh e) s
  Slots-append_right buf size h i (u ∷ us) vs hh e s =
      Slots-append_right buf size ((h + 1) % size) i us vs (omega arith)
        (e ∙ add-mod_once size h (length us)) s.1

  -- A write to a slot further on than these leaves them.
  pub Slots-set_beyond :
      (buf : List A) (size h k i : ℕ) (w : A) (vs : List A)
      → h < size
      → i ≡ (h + k) % size
      → length vs ≤ k
      → k < size
      → Slots buf size h vs
      → Slots (set buf i w) size h vs
  Slots-set_beyond buf size h k i w [] hh e hv hk s = tt
  Slots-set_beyond buf size h zero i w (v ∷ vs) hh e hv hk s = absurd (omega arith)
  Slots-set_beyond buf size h (suc k) i w (v ∷ vs) hh e hv hk s = (
    get_elem?-set_ne buf i h w (rw e (add-mod-ne hh hk)) ∙ s.0,
    Slots-set_beyond buf size ((h + 1) % size) k i w vs (omega arith) (e ∙ add-mod_once size h k)
        (omega arith) (omega arith) s.1,
  )

  -- A write to one of these slots changes that value.
  pub Slots-set :
      (buf : List A) (size h i : ℕ) (us : List A) (v w : A) (vs : List A)
      → size ≤ length buf
      → h < size
      → i ≡ (h + length us) % size
      → length us + length vs < size
      → Slots buf size h (us ++ (v ∷ vs))
      → Slots (set buf i w) size h (us ++ (w ∷ vs))
  Slots-set buf size h i [] v w vs hb hh e hl s =
      let here = at_start size h i hh e in
      (
        rw here (get_elem?-set_self buf h w (omega arith)),
        Slots-set_beyond buf size ((h + 1) % size) (size - 1) i w vs (omega arith)
            (here ∙ full_round size h hh) (omega arith) (omega arith) s.1,
      )
  Slots-set buf size h i (u ∷ us) v w vs hb hh e hl s = (
    get_elem?-set_ne buf i h w (rw e (add-mod-ne hh (omega arith))) ∙ s.0,
    Slots-set buf size ((h + 1) % size) i us v w vs hb (omega arith)
        (e ∙ add-mod_once size h (length us)) (omega arith) s.1,
  )

  pub Slots-snoc :
      (buf : List A) (size h i : ℕ) (v : A) (vs : List A)
      → h < size
      → i ≡ (h + length vs) % size
      → get_elem? buf i ≡ some v
      → Slots buf size h vs
      → Slots buf size h (vs ++ (v ∷ []))
  Slots-snoc buf size h i v [] hh e g s = (rw (at_start size h i hh e) at g, tt)
  Slots-snoc buf size h i v (x ∷ vs) hh e g s = (
    s.0,
    Slots-snoc buf size ((h + 1) % size) i v vs (omega arith) (e ∙ add-mod_once size h (length vs))
        g s.1,
  )
