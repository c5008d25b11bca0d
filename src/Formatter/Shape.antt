-- ===== src/Formatter/Shape.antt =====
-- The loop that looks for the closing brace.
use sim_logger.Prelude.{
  ℕ, false, [], ◌∷◌, ◌++◌, Option, none, some, ◌≡◌, ◌≢◌, refl, ap, inl, inr, ◌==◌, ==_iff,
  Bool-cases, arith, Bytes,
}
use sim_logger.Formatter.{until_close}

-- The byte does not stand in the text.
pub data Without (c : ℕ) : Bytes → Type 0 where
  nothing : Without c []
  other : {x : ℕ} {s : Bytes} → x ≢ c → Without c s → Without c (x ∷ s)

pub ne_of_test : (x c : ℕ) → (x == c) ≡ false → x ≢ c
ne_of_test x c e h = absurd (ground (arith, e, h))

pub test_of_ne : (x c : ℕ) → x ≢ c → (x == c) ≡ false
test_of_ne x c h = ground (arith, h)

pub until_close-close : (t p : Bytes) → Without 125 t → until_close (t ++ (125 ∷ p)) ≡ some (t, p)
unfolding until_close
until_close-close [] p nothing = refl
until_close-close (x ∷ t) p (other h w) =
    rw (test_of_ne x 125 h, until_close-close t p w, until_close)

pub until_close-Without : (s : Bytes) → Without 125 s → until_close s ≡ none
unfolding until_close
until_close-Without [] nothing = refl
until_close-Without (x ∷ s) (other h w) =
    rw (test_of_ne x 125 h, until_close-Without s w, until_close)

-- What the loop finds in a text.
pub data Closing (s : Bytes) : Option (Bytes × Bytes) → Type 0 where
  unclosed : Without 125 s → Closing s none
  closed : (t p : Bytes) → s ≡ t ++ (125 ∷ p) → Without 125 t → Closing s (some (t, p))

Closing-cons :
    (x : ℕ) (s : Bytes) (o : Option (Bytes × Bytes))
    → x ≢ 125
    → Closing s o
    → Closing (x ∷ s) (elim o [ none ↦ none | some (t, after) ↦ some (x ∷ t, after) ])
Closing-cons x s none h (unclosed w) = unclosed (other h w)
Closing-cons x s (some (t, p)) h (closed _ _ e w) = closed (x ∷ t) p (ap (◌∷◌ x) e) (other h w)

pub until_close-Closing : (s : Bytes) → Closing s (until_close s)
unfolding until_close
until_close-Closing [] = unclosed nothing
until_close-Closing (x ∷ s) = elim (Bool-cases (x == 125)) [
  | inl y ↦ rw y (closed [] s (ap (λ c. c ∷ s) ((==_iff x 125).0 y)) nothing)
  | inr n ↦ rw n (Closing-cons x s (until_close s) (ne_of_test x 125 n) (until_close-Closing s))
]
