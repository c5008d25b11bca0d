-- ===== src/Macros.antt =====
-- The macros LOG_DEBUG, LOG_INFO, LOG_WARN, LOG_ERROR and LOG_FATAL, and those with an F behind, of
-- logger_core/include/logger/log_macros.hpp, as the preprocessor expands them. An argument is a list
-- of tokens of the source; a call in the result is the list of its own arguments.
mod Tests
pub mod Arity
use sim_logger.Prelude.{
  ℕ, zero, suc, List, [], ◌∷◌, ◌++◌, Option, none, some, ◌==◌, if◌then◌else◌, leb, ◌&&◌, map,
  get_elem?,
}
use sim_logger.Level.{Level}

-- An argument of a macro: a decimal numeral, or anything else.
pub data Argument (X : Type 0) : Type 0 where
  numeral : ℕ → Argument X
  other : X → Argument X

-- A call of `log_printf` with the level, the place of the macro's use, and these arguments.
pub record PrintfCall (X : Type 0) : Type 0 where
  pub level : Level
  pub logger : Argument X
  pub fmt : Argument X
  pub variadic : List (Argument X)

-- A call of `log_string` with the level, the place of the macro's use, and these arguments.
pub record StringCall (X : Type 0) : Type 0 where
  pub level : Level
  pub logger : Argument X
  pub message : Argument X

module _ {X : Type 0} where
  -- LOG_DEBUG, LOG_INFO, LOG_WARN, LOG_ERROR and LOG_FATAL, of two arguments
  unfoldable pub log_message : Level → List (Argument X) → Option (StringCall X)
  log_message level (logger ∷ msg ∷ []) =
      some (record { level = level; logger = logger; message = msg })
  log_message level _ = none

  -- `10, 9, 8, 7, 6, 5, 4, 3, 2, 1, 0`
  abbrev pub numerals_down : ℕ → List (Argument X)
  numerals_down zero = numeral 0 ∷ []
  numerals_down (suc n) = numeral (suc n) ∷ numerals_down n

  -- SIM_LOGGER_PP_NARGS_: the argument that N stands for, of those that are given.
  unfoldable pub nargs_of : List (Argument X) → Option (Argument X)
  nargs_of args = get_elem? args 10

  -- SIM_LOGGER_PP_NARGS
  unfoldable pub nargs : List (Argument X) → Option (Argument X)
  unfolding nargs_of
  nargs args = nargs_of (args ++ numerals_down 10)

  -- The family SIM_LOGGER_DEBUGF_2, of two arguments; `none`: the arguments do not fit.
  unfoldable pub printf_2 : Level → List (Argument X) → Option (PrintfCall X)
  printf_2 level (logger ∷ fmt ∷ []) =
      some (record { level = level; logger = logger; fmt = fmt; variadic = [] })
  printf_2 level _ = none

  -- The family SIM_LOGGER_DEBUGF_3, of two arguments and more
  unfoldable pub printf_3 : Level → List (Argument X) → Option (PrintfCall X)
  printf_3 level (logger ∷ fmt ∷ arg ∷ args) =
      some (record { level = level; logger = logger; fmt = fmt; variadic = arg ∷ args })
  printf_3 level _ = none

  -- The families SIM_LOGGER_DEBUGF_IMPL2 to SIM_LOGGER_DEBUGF_IMPL10, and whether the pasted name is
  -- one of these.
  unfoldable pub impl : Level → Argument X → List (Argument X) → Option (PrintfCall X)
  unfolding printf_2 printf_3
  impl level (numeral n) args =
      if n == 2
      then printf_2 level args
      else if leb 3 n && leb n 10
      then printf_3 level args
      else none
  impl level (other x) args = none

  -- SIM_LOGGER_PP_DISPATCH_BY_NARGS behind LOG_DEBUGF and its like; `none`: what the macro expands to
  -- does not compile. A use without arguments counts as one with one empty argument.
  unfoldable pub dispatch_by_nargs : Level → List (Argument X) → Option (PrintfCall X)
  unfolding nargs impl
  dispatch_by_nargs level args = elim (nargs args) [ none ↦ none | some n ↦ impl level n args ]
