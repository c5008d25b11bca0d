-- ===== src/Prune.antt =====
-- Which rotated files are deleted: `prune_old_rotations_locked` of
-- logger_core/src/rotating_file_sink.cpp.
mod Tests
pub mod Order
pub mod Reads
pub mod Newest
pub mod Limited
pub mod Spared
use sim_logger.Prelude.{
  ℕ, ◌-◌, Bool, true, false, List, [], ◌∷◌, Option, none, some, ltb, leb, ◌==◌, if◌then◌else◌,
  length, take, Bytes, bytes_eq,
}
use sim_logger.Rotation.{parse_rotation_suffix}
use sim_logger.Disk.{Disk, list_names, remove}

pub record Candidate : Type 0 where
  pub path : Bytes
  pub ts : Bytes
  pub seq : ℕ

-- `<` of two strings
unfoldable pub bytes_lt : Bytes → Bytes → Bool
bytes_lt [] [] = false
bytes_lt [] (y ∷ ys) = true
bytes_lt (x ∷ xs) [] = false
bytes_lt (x ∷ xs) (y ∷ ys) = let rest = bytes_lt xs ys in if x == y then rest else ltb x y

-- The comparison of the sort.
unfoldable pub before : Candidate → Candidate → Bool
unfolding bytes_lt bytes_eq
before a b = if bytes_eq a.ts b.ts then ltb a.seq b.seq else bytes_lt a.ts b.ts

-- `std::sort`
unfoldable pub insert : Candidate → List Candidate → List Candidate
unfolding before
insert c [] = c ∷ []
insert c (b ∷ s) = let rest = insert c s in if before c b then c ∷ b ∷ s else b ∷ rest

unfoldable pub sort : List Candidate → List Candidate
unfolding insert
sort [] = []
sort (c ∷ s) = insert c (sort s)

-- The names that are rotated files of the base name.
unfoldable pub candidates : Bytes → List Bytes → List Candidate
unfolding parse_rotation_suffix
candidates base [] = []
candidates base (n ∷ ns) =
    let rest = candidates base ns in
    elim (parse_rotation_suffix n base) [
      | some (ts, seq) ↦ record { path = n; ts = ts; seq = seq } ∷ rest
      | none ↦ rest
    ]

-- What is to be deleted, of a directory with these names.
unfoldable pub victims : ℕ → Bytes → List Bytes → List Candidate
unfolding candidates sort
victims max_rotated base names =
    let cs = candidates base names in
    if leb (length cs) max_rotated then [] else take (length cs - max_rotated) (sort cs)

module _ (fails : ℕ → Bool) (short : ℕ → ℕ) where
  unfoldable pub remove_all : List Candidate → Disk → Disk
  remove_all [] d = d
  remove_all (c ∷ cs) d = remove_all cs (remove fails short c.path d)

  unfoldable pub prune : ℕ → Bytes → Disk → Disk
  unfolding victims remove_all
  prune max_rotated base d =
      if max_rotated == 0
      then d
      else let (names, d1) = list_names fails short d in
        remove_all (victims max_rotated base names) d1
