-- ===== src/Macros/Arity.antt =====
-- Which uses of the macros compile, and to what.
use sim_logger.Prelude.{
  ℕ, zero, suc, ◌≤◌, ◌<◌, ◌-◌, List, [], ◌∷◌, ◌++◌, Option, none, some, ◌≡◌, refl, ap, ◌∙◌, arith,
  get_elem?, length,
}
use sim_logger.Level.{Level}
use sim_logger.Macros.{
  Argument, numeral, other, PrintfCall, numerals_down, nargs, nargs_of, printf_2, printf_3, impl,
  dispatch_by_nargs,
}

module _ {X : Type 0} where
  get_elem?-after :
      (xs ys : List (Argument X)) (i : ℕ)
      → length xs ≤ i
      → get_elem? (xs ++ ys) i ≡ get_elem? ys (i - length xs)
  get_elem?-after [] ys i h = ap (get_elem? ys) (omega arith)
  get_elem?-after (x ∷ xs) ys zero h = absurd (omega arith)
  get_elem?-after (x ∷ xs) ys (suc i) h =
      get_elem?-after xs ys i (omega arith) ∙ ap (get_elem? ys) (omega arith)

  get_elem?-within :
      (xs ys : List (Argument X)) (i : ℕ) → i < length xs → get_elem? (xs ++ ys) i ≡ get_elem? xs i
  get_elem?-within [] ys i h = absurd (omega arith)
  get_elem?-within (x ∷ xs) ys zero h = refl
  get_elem?-within (x ∷ xs) ys (suc i) h = get_elem?-within xs ys i (omega arith)

  get_elem?-numerals_down :
      (n i : ℕ) → i ≤ n → get_elem? (numerals_down {X = X} n) i ≡ some (numeral (n - i))
  get_elem?-numerals_down zero zero h = refl
  get_elem?-numerals_down zero (suc i) h = absurd (omega arith)
  get_elem?-numerals_down (suc n) zero h = ap (λ k. some (numeral k)) (omega arith)
  get_elem?-numerals_down (suc n) (suc i) h =
      get_elem?-numerals_down n i (omega arith) ∙ ap (λ k. some (numeral k)) (omega arith)

  counted :
      (args : List (Argument X)) → length args ≤ 10 → nargs args ≡ some (numeral (length args))
  unfolding nargs nargs_of
  counted args h =
      get_elem?-after args (numerals_down 10) 10 h
      ∙ get_elem?-numerals_down 10 (10 - length args) (omega arith)
      ∙ ap (λ k. some (numeral k)) (omega arith)

  -- The call of `log_printf` that a use with these arguments stands for.
  unfoldable pub intended : Level → List (Argument X) → Option (PrintfCall X)
  intended level (logger ∷ fmt ∷ variadic) =
      some (record { level = level; logger = logger; fmt = fmt; variadic = variadic })
  intended level _ = none

  impl-many :
      (level : Level) (n : ℕ) (args : List (Argument X))
      → 3 ≤ n
      → n ≤ 10
      → 3 ≤ length args
      → impl level (numeral n) args ≡ intended level args
  unfolding impl printf_3 intended
  impl-many level n (x ∷ y ∷ z ∷ args) low high many = ground arith
  impl-many level n (x ∷ y ∷ []) low high many = absurd (omega arith)
  impl-many level n (x ∷ []) low high many = absurd (omega arith)
  impl-many level n [] low high many = absurd (omega arith)

  impl-length :
      (level : Level) (args : List (Argument X))
      → length args ≤ 10
      → impl level (numeral (length args)) args ≡ intended level args
  unfolding impl printf_2 intended
  impl-length level [] h = refl
  impl-length level (x ∷ []) h = refl
  impl-length level (x ∷ y ∷ []) h = refl
  impl-length level (x ∷ y ∷ z ∷ args) h =
      impl-many level (length (x ∷ y ∷ z ∷ args)) (x ∷ y ∷ z ∷ args) (omega arith) h (omega arith)

  -- A use of one of the macros with at most ten arguments expands to the intended call, of the
  -- macro's level and with exactly these arguments, if there are two or more, and with fewer it does
  -- not compile. With more than ten it hangs on the eleventh argument: the use does not compile
  -- if that is no numeral, and expands to the intended call if it is a numeral from 3 to 10.
  pub dispatch_by_nargs-intended :
      (level : Level) (args : List (Argument X))
      → (length args ≤ 10 → dispatch_by_nargs level args ≡ intended level args)
        × ((x : X)
            → get_elem? args 10 ≡ some (other x)
            → 10 < length args
            → dispatch_by_nargs level args ≡ none)
        × ((n : ℕ)
            → get_elem? args 10 ≡ some (numeral n)
            → 10 < length args
            → 3 ≤ n
            → n ≤ 10
            → dispatch_by_nargs level args ≡ intended level args)
  unfolding dispatch_by_nargs impl nargs nargs_of
  dispatch_by_nargs-intended level args = (
    λ few. rw (counted args few, dispatch_by_nargs) (impl-length level args few),
    λ x e many.
        rw (
          get_elem?-within args (numerals_down 10) 10 many ∙ e,
          dispatch_by_nargs,
          nargs,
          nargs_of,
        ),
    λ n e many low high.
        rw
          (get_elem?-within args (numerals_down 10) 10 many ∙ e, dispatch_by_nargs, nargs, nargs_of)
          (impl-many level n args low high (omega arith)),
  )
