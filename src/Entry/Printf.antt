-- ===== src/Entry/Printf.antt =====
-- What the messages of the printf-like entry points are.
use sim_logger.Prelude.{
  ℕ, zero, suc, ◌+◌, ◌-◌, ◌≤◌, [], ◌∷◌, ◌++◌, Option, none, some, ◌≡◌, refl, ap, ◌∙◌, arith, length,
  take, Bytes,
}
use sim_logger.Entry.{zeros, vformat_printf}

-- vsnprintf as it is documented, where `text` is what the format prints: at every size of the buffer
-- it returns the length of the text and stores as much of it as fits before the closing zero; where
-- the format prints nothing because of an error, it returns a negative value.
pub record IsVsnprintf {A : Type 0} (vsnprintf : ℕ → Bytes → A → Option ℕ × Bytes)
    (text : Bytes → A → Option Bytes) : Type 0 where
  pub fails :
      (size : ℕ) (fmt : Bytes) (args : A)
      → text fmt args ≡ none
      → (vsnprintf size fmt args).0 ≡ none
  pub prints :
      (size : ℕ) (fmt : Bytes) (args : A) (t : Bytes)
      → text fmt args ≡ some t
      → vsnprintf size fmt args ≡ (some (length t), take (size - 1) t)

-- The message: the text, empty without a format or after an error.
unfoldable pub printed : {A : Type 0} → (Bytes → A → Option Bytes) → Option Bytes → A → Bytes
printed text none args = []
printed text (some fmt) args = elim (text fmt args) [ some t ↦ t | none ↦ [] ]

take_all : (t u : Bytes) (n : ℕ) → n ≡ length t → take n (t ++ u) ≡ t
take_all [] u zero e = refl
take_all [] u (suc n) e = absurd (omega arith)
take_all (c ∷ t) u zero e = absurd (omega arith)
take_all (c ∷ t) u (suc n) e = ap (λ s. c ∷ s) (take_all t u n (omega arith))

take_enough : (t : Bytes) (n : ℕ) → length t ≤ n → take n t ≡ t
take_enough [] zero h = refl
take_enough [] (suc n) h = refl
take_enough (c ∷ t) zero h = absurd (omega arith)
take_enough (c ∷ t) (suc n) h = ap (λ s. c ∷ s) (take_enough t n (omega arith))

module _ {A : Type 0} (vsnprintf : ℕ → Bytes → A → Option ℕ × Bytes)
    (text : Bytes → A → Option Bytes) (ok : IsVsnprintf vsnprintf text) where
  -- The two calls of vsnprintf.
  twice :
      (fmt : Bytes) (args : A) (o : Option Bytes)
      → text fmt args ≡ o
      → vformat_printf vsnprintf (some fmt) args ≡ elim o [ some t ↦ t | none ↦ [] ]
  unfolding vformat_printf
  twice fmt args none e = rw (ok.fails 0 fmt args e, vformat_printf)
  twice fmt args (some []) e = rw (ok.prints 0 fmt args [] e, vformat_printf)
  twice fmt args (some (c ∷ t)) e =
      rw
        (
          ok.prints 0 fmt args (c ∷ t) e,
          ok.prints (suc (length t) + 1) fmt args (c ∷ t) e,
          vformat_printf,
        )
        (ap (λ u. take (suc (length t)) (u ++ zeros (suc (length t))))
            (take_enough (c ∷ t) (suc (length t) + 1 - 1) (omega arith))
          ∙ take_all (c ∷ t) (zeros (suc (length t))) (suc (length t)) refl)

  pub vformat_printf-printed :
      (fmt : Option Bytes) (args : A) → vformat_printf vsnprintf fmt args ≡ printed text fmt args
  unfolding vformat_printf printed
  vformat_printf-printed none args = refl
  vformat_printf-printed (some fmt) args = twice fmt args (text fmt args) refl
