-- ===== src/Macros/Tests.antt =====
-- Uses of LOG_WARNF with names as arguments.
use sim_logger.Prelude.{
  ℕ, ◌≤◌, ◌<◌, [], ◌∷◌, List, some, none, ◌≡◌, refl, get_elem?, length, Bytes, codes,
}
use sim_logger.Level.{warn}
use sim_logger.Macros.{Argument, numeral, other, nargs, nargs_of, impl, dispatch_by_nargs}
use sim_logger.Macros.Arity.{intended, dispatch_by_nargs-intended}

abbrev three : List (Argument Bytes)
three = other (codes "log") ∷ other (codes "fmt") ∷ numeral 7 ∷ []

only_a_logger : dispatch_by_nargs warn (other (codes "log") ∷ []) ≡ none
unfolding dispatch_by_nargs nargs nargs_of impl
only_a_logger = refl

dispatch_by_nargs-intended_example :
    (length three ≤ 10 → dispatch_by_nargs warn three ≡ intended warn three)
    × ((x : Bytes)
        → get_elem? three 10 ≡ some (other x)
        → 10 < length three
        → dispatch_by_nargs warn three ≡ none)
    × ((n : ℕ)
        → get_elem? three 10 ≡ some (numeral n)
        → 10 < length three
        → 3 ≤ n
        → n ≤ 10
        → dispatch_by_nargs warn three ≡ intended warn three)
dispatch_by_nargs-intended_example = dispatch_by_nargs-intended warn three
