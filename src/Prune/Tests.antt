-- ===== src/Prune/Tests.antt =====
-- Three rotated files of which two are kept.
use sim_logger.Prelude.{
  ◌≤◌, ◌≢◌, length, ℕ, Bool, false, List, [], ◌∷◌, none, map, ◌≡◌, refl, arith, Bytes, codes,
  bytes_eq,
}
use sim_logger.Rotation.{
  parse_rotation_suffix, strip_prefix, is_timestamp, all_digits, is_digit, parse_seq, parse_digits,
}
use sim_logger.Disk.{Disk, File, get}
use sim_logger.Prune.{Candidate, candidates, victims, prune, sort, insert, before, bytes_lt}
use sim_logger.Prune.Limited.{names}
use sim_logger.Prune.Spared.{prune_spares}
use sim_logger.Prune.Reads.{IsOther, Reads}
use sim_logger.Prune.Newest.{Split, IsPath, Deleted, seen, prune_keeps_newest}

abbrev never_fails : ℕ → Bool
never_fails i = false

abbrev nothing_short : ℕ → ℕ
nothing_short i = 0

abbrev file : Bytes → File
file n = record { name = n; content = codes "text" }

abbrev disk : Disk
disk = record {
  files =
      file (codes "a.log.20240102_030406")
      ∷ file (codes "a.log")
      ∷ file (codes "a.log.20240102_030405.2")
      ∷ file (codes "a.log.20240102_030405")
      ∷ [];
  calls = 0;
}

-- The number is missing in the oldest name.
oldest :
    map (λ c. c.path) (victims 2 (codes "a.log") (map (λ f. f.name) disk.files))
    ≡ codes "a.log.20240102_030405" ∷ []
unfolding victims candidates sort insert before bytes_lt bytes_eq parse_rotation_suffix strip_prefix
    is_timestamp all_digits is_digit parse_seq parse_digits
oldest = refl

prune_keeps_newest_example :
    ((cs : List Candidate) × Reads (codes "a.log") (seen never_fails nothing_short disk) cs
      × Split 2 cs (victims 2 (codes "a.log") (seen never_fails nothing_short disk)))
    × ((n : Bytes)
        → Deleted never_fails nothing_short n
            (victims 2 (codes "a.log") (seen never_fails nothing_short disk))
            disk.files
            (prune never_fails nothing_short 2 (codes "a.log") disk).files)
    × (((i : ℕ) → never_fails i ≡ false)
        → (n : Bytes) → IsPath n (victims 2 (codes "a.log") (seen never_fails nothing_short disk))
        → get n (prune never_fails nothing_short 2 (codes "a.log") disk).files ≡ none)
prune_keeps_newest_example =
    prune_keeps_newest never_fails nothing_short 2 (codes "a.log") disk (λ e. omega (arith, e))

abbrev limit : ℕ
limit = 2

prune_spares_example :
    ((n : Bytes)
      → IsOther (codes "a.log") n
      → get n (prune never_fails nothing_short 2 (codes "a.log") disk).files ≡ get n disk.files)
    × (get (codes "a.log") (prune never_fails nothing_short 2 (codes "a.log") disk).files
        ≡ get (codes "a.log") disk.files)
    × (limit ≢ 0
        → ((i : ℕ) → never_fails i ≡ false)
        → (cs : List Candidate) × Reads
            (codes "a.log")
            (names (prune never_fails nothing_short 2 (codes "a.log") disk).files)
            cs
          × (length cs ≤ 2))
prune_spares_example = prune_spares never_fails nothing_short 2 (codes "a.log") disk
