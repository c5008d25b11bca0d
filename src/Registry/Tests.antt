-- ===== src/Registry/Tests.antt =====
-- The registry's theorems from an empty registry.
use sim_logger.Prelude.{ℕ, ◌<◌, [], ◌∷◌, none, some, ◌≡◌, refl, arith, Bytes, codes, bytes_eq}
use sim_logger.Logger.{new_logger, Logger, fetch}
use sim_logger.Registry.{
  Registry, find, insert, find_last_of, choose_parent, has_owner, free, clear, parent_name_for,
  get_logger,
}
use sim_logger.Registry.Parent.{Parent, parent_total}
use sim_logger.Registry.Insert.{IsValid}
use sim_logger.Registry.Get.{Got, depth, get_logger_total}
use sim_logger.Registry.Race.{Answer, here, later, Racing, over, then, one_logger_per_name}

abbrev no_loggers : Registry
no_loggers = record { heap = []; loggers = [] }

no_loggers-IsValid : IsValid no_loggers
unfolding fetch find
no_loggers-IsValid = record { hierarchy = λ i p l e up. cc; listed = λ n i e. cc }

-- A name that ends in dots has the parent of what stands before them.
parent_of_dots : parent_name_for 9 (codes "a.b..") ≡ some (codes "a")
unfolding parent_name_for choose_parent find_last_of bytes_eq
parent_of_dots = refl

parent_total_example :
    (p : Bytes) × (parent_name_for 9 (codes "a.b..") ≡ some p) × Parent (codes "a.b..") p
parent_total_example = parent_total 9 (codes "a.b..") (omega arith)

shallow : depth (codes "a.b") < 9
unfolding depth bytes_eq
shallow = omega arith

get_logger_total_example :
    (out : ℕ × Registry) × (get_logger 9 (codes "a.b") no_loggers ≡ some out)
    × Got (codes "a.b") no_loggers out
get_logger_total_example = get_logger_total 9 (codes "a.b") no_loggers no_loggers-IsValid shallow

-- Two calls for one name: the later one loses.
abbrev name : Bytes
name = codes "root"

abbrev after_first : Registry
after_first = (insert name none no_loggers).1

abbrev after_second : Registry
after_second = (insert name none after_first).1

abbrev first : Answer
first = record { name = name; cell = (insert name none no_loggers).0 }

abbrev second : Answer
second = record { name = name; cell = (insert name none after_first).0 }

both_race : Racing no_loggers (first ∷ second ∷ []) after_second
both_race = then name none (λ p e. cc) (then name none (λ p e. cc) over)

one_logger_per_name_example :
    (first.cell ≡ second.cell)
    × (find after_second.loggers first.name ≡ some first.cell)
    × ((l : Logger) × (fetch after_second.heap first.cell ≡ some l) × (l.name ≡ first.name))
one_logger_per_name_example =
    one_logger_per_name no_loggers after_second (first ∷ second ∷ []) first second
      no_loggers-IsValid both_race here (later here) refl

-- Of two loggers, the one that the program holds outlives the map.
kept_logger :
    (clear (1 ∷ []) (record {
      heap = some (new_logger (codes "root")) ∷ some (new_logger (codes "a")) ∷ [];
      loggers = [];
    })).heap
    ≡ none ∷ some (new_logger (codes "a")) ∷ []
unfolding clear free has_owner
kept_logger = refl
