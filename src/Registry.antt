-- ===== src/Registry.antt =====
-- The registry of loggers: logger_core/include/logger/logger_registry.hpp and
-- logger_core/src/logger_registry.cpp. The registry owns the loggers that its map names; they live
-- in the heap of the loggers.
mod Tests
pub mod Parent
pub mod Insert
pub mod Get
pub mod Race
use sim_logger.Prelude.{
  ℕ, zero, suc, ◌-◌, Bool, true, false, ◌||◌, List, [], ◌∷◌, ◌++◌, Option, none, some, ◌==◌,
  if◌then◌else◌, length, take, set, Bytes, codes, bytes_eq,
}
use sim_logger.Logger.{Logger, Heap, new_logger, set_parent}

-- `loggers` is the map, each name with the cell of its logger; the name that comes first counts.
pub record Registry : Type 0 where
  pub heap : Heap
  pub loggers : List (Bytes × ℕ)

-- `std::string::find_last_of` of one character
unfoldable pub find_last_of : Bytes → ℕ → Option ℕ
find_last_of [] c = none
find_last_of (x ∷ s) c = elim (find_last_of s c) [
  | some i ↦ some (suc i)
  | none ↦ if x == c then some 0 else none
]

-- The choice by the place of the last dot, where `again` is the parent of the name without its last
-- byte.
unfoldable pub choose_parent : Bytes → Option ℕ → Option Bytes → Option Bytes
choose_parent name none again = some (codes "root")
choose_parent name (some pos) again =
    if pos == 0
    then some (codes "root")
    else if pos == length name - 1
    then again
    else some (take pos name)

-- `none`: the fuel ran out.
unfoldable pub parent_name_for : ℕ → Bytes → Option Bytes
unfolding bytes_eq choose_parent
parent_name_for zero name = none
parent_name_for (suc fuel) name =
    if bytes_eq name [] || bytes_eq name (codes "root")
    then some []
    else choose_parent name (find_last_of name 46)
        (parent_name_for fuel (take (length name - 1) name))

-- `loggers_.find`
unfoldable pub find : List (Bytes × ℕ) → Bytes → Option ℕ
find [] name = none
find ((key, i) ∷ m) name = if bytes_eq key name then some i else find m name

-- `make_shared<Logger>` and `set_parent`: the new logger's cell, and the heap with it.
unfoldable pub create : Bytes → Option ℕ → Heap → ℕ × Heap
create name parent h = (length h, h ++ (some (set_parent parent (new_logger name)) ∷ []))

-- The section under the second lock. A logger that is already there wins, and the candidate is
-- destroyed.
unfoldable pub emplace : Bytes → ℕ → Registry → ℕ × Registry
emplace name created r = elim (find r.loggers name) [
  | some i ↦ (i, record r { heap = set r.heap created none })
  | none ↦ (created, record r { loggers = (name, created) ∷ r.loggers })
]

-- The part of `get_logger` after the parent is known.
unfoldable pub insert : Bytes → Option ℕ → Registry → ℕ × Registry
unfolding create emplace
insert name parent r =
    let (created, h) = create name parent r.heap in emplace name created (record r { heap = h })

-- `none`: the fuel, which bounds the nesting of the calls, ran out.
unfoldable pub get_logger : ℕ → Bytes → Registry → Option (ℕ × Registry)
unfolding insert
get_logger zero name r = none
get_logger (suc fuel) name r = elim (find r.loggers name) [
  | some i ↦ some (i, r)
  | none ↦ elim (parent_name_for (suc (length name)) name) [
    | none ↦ none
    | some [] ↦ some (insert name none r)
    | some (c ∷ cs) ↦ elim (get_logger fuel (c ∷ cs) r) [
      | none ↦ none
      | some (parent, r') ↦ some (insert name (some parent) r')
    ]
  ]
]

-- Whether a logger is kept by one of these shared pointers, each given by the cell it points to.
unfoldable pub has_owner : List ℕ → ℕ → Bool
has_owner [] i = false
has_owner (p ∷ owners) i = let rest = has_owner owners i in if p == i then true else rest

-- The loggers from cell `i` on, where those without an owner are destroyed.
unfoldable pub free : List ℕ → ℕ → Heap → Heap
unfolding has_owner
free owners i [] = []
free owners i (c ∷ h) = (if has_owner owners i then c else none) ∷ free owners (suc i) h

-- `clear`: the shared pointers of the map go, and those of the program's users, handles of the C
-- interface among them, stay.
unfoldable pub clear : List ℕ → Registry → Registry
unfolding free
clear users r = record { heap = free users 0 r.heap; loggers = [] }
