-- ===== src/Rotation.antt =====
-- The names of rotated files: logger_core/src/rotating_file_sink.cpp, the search for a free name in
-- `rotate_locked`, and `parse_rotation_suffix`, by which pruning recognises the files.
-- Names are taken without the directory, which they share.
mod Tests
pub mod Suffix
pub mod Stamp
pub mod Parts
pub mod Form
use sim_logger.Prelude.{
  ℕ, zero, suc, ◌+◌, ◌*◌, ◌-◌, ◌%◌, ◌^◌, Bool, true, false, ◌&&◌, List, [], ◌∷◌, ◌++◌, Option, none,
  some, ltb, leb, ◌==◌, if◌then◌else◌, length, take, drop, get_elem?, Bytes, codes,
}
use sim_logger.Formatter.{digits}

-- `filename.rfind(prefix, 0)`, and what stands behind the prefix.
unfoldable pub strip_prefix : Bytes → Bytes → Option Bytes
strip_prefix [] s = some s
strip_prefix (c ∷ prefix) [] = none
strip_prefix (c ∷ prefix) (x ∷ s) =
    let rest = strip_prefix prefix s in if x == c then rest else none

unfoldable pub is_digit : ℕ → Bool
is_digit c = leb 48 c && leb c 57

unfoldable pub all_digits : Bytes → Bool
unfolding is_digit
all_digits [] = true
all_digits (c ∷ s) = is_digit c && all_digits s

-- The test on the 15 bytes of a timestamp.
unfoldable pub is_timestamp : Bytes → Bool
unfolding all_digits
is_timestamp ts =
    all_digits (take 8 ts)
    && (elim (get_elem? ts 8) [ some c ↦ c == 95 | none ↦ false ] && all_digits (drop 9 ts))

-- The loop over the digits of the sequence number, a `uint32_t`; `none`: a byte is no digit.
unfoldable pub parse_digits : ℕ → Bytes → Option ℕ
unfolding is_digit
parse_digits acc [] = some acc
parse_digits acc (c ∷ s) =
    let rest = parse_digits ((acc * 10 + (c - 48)) % 2 ^ 32) s in if is_digit c then rest else none

-- What follows the timestamp.
unfoldable pub parse_seq : Bytes → Option ℕ
unfolding parse_digits
parse_seq [] = some 0
parse_seq (c ∷ []) = none
parse_seq (c ∷ d ∷ s) = let rest = parse_digits 0 (d ∷ s) in if c == 46 then rest else none

-- The timestamp and the sequence number of a rotated file of `base_filename`.
unfoldable pub parse_rotation_suffix : Bytes → Bytes → Option (Bytes × ℕ)
unfolding strip_prefix is_timestamp parse_seq
parse_rotation_suffix filename base_filename =
    elim (strip_prefix (base_filename ++ (46 ∷ [])) filename) [
      | none ↦ none
      | some rest ↦
          if ltb (length rest) 15
          then none
          else if is_timestamp (take 15 rest)
          then elim (parse_seq (drop 15 rest)) [ some seq ↦ some (take 15 rest, seq) | none ↦ none ]
          else none
    ]

-- `rotated_base`, and the name with a sequence number
unfoldable pub rotated_base : Bytes → Bytes → Bytes
rotated_base base ts = base ++ (46 ∷ ts)

unfoldable pub with_seq : Bytes → ℕ → Bytes
unfolding digits
with_seq name seq = name ++ (46 ∷ digits 20 seq)

-- The loop over the sequence numbers, for as many as the first argument; `none`: all are taken.
unfoldable pub free_seq : (Bytes → Bool) → Bytes → ℕ → ℕ → Option Bytes
unfolding with_seq
free_seq exists name zero seq = none
free_seq exists name (suc left) seq =
    let rest = free_seq exists name left (seq + 1) in
    if exists (with_seq name seq) then rest else some (with_seq name seq)

-- The name that the file gets; `none` is the exception that there is no unique one.
unfoldable pub rotated_name : (Bytes → Bool) → Bytes → Bytes → Option Bytes
rotated_name exists base ts =
    if exists (rotated_base base ts)
    then free_seq exists (rotated_base base ts) 9999 1
    else some (rotated_base base ts)

-- What a `std::tm` holds of a time.
pub record UtcTime : Type 0 where
  pub year : ℕ
  pub month : ℕ
  pub day : ℕ
  pub hour : ℕ
  pub minute : ℕ
  pub second : ℕ

-- `make_timestamp_utc` at the time `utc_tm` of the clock; `none` is a result 0 of `strftime`.
unfoldable pub make_timestamp_utc : (Bytes → UtcTime → Option Bytes) → UtcTime → Bytes
make_timestamp_utc strftime utc_tm = elim (strftime (codes "%Y%m%d_%H%M%S") utc_tm) [
  | some buf ↦ buf
  | none ↦ codes "00000000_000000"
]
