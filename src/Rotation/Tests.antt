-- ===== src/Rotation/Tests.antt =====
-- Rotated names of one file.
use sim_logger.Prelude.{
  ◌∷◌, ◌++◌, Option, inr, ℕ, ◌≤◌, ◌<◌, Bool, true, false, some, none, ◌≡◌, refl, Bytes, codes,
  bytes_eq,
}
use sim_logger.Rotation.{
  strip_prefix, is_digit, all_digits, is_timestamp, parse_digits, parse_seq, parse_rotation_suffix,
  rotated_base, with_seq, rotated_name, UtcTime, make_timestamp_utc,
}
use sim_logger.Rotation.Stamp.{padded, make_timestamp_utc-IsStamp}
use sim_logger.Rotation.Suffix.{IsStamp, rotated_name_recognised}

abbrev stamp : Bytes
stamp = codes "20240102_030405"

stamp-IsStamp : IsStamp stamp
unfolding is_timestamp all_digits is_digit
stamp-IsStamp = record { size = refl; shape = refl }

-- The sequence number wraps at 2 ^ 32.
wraps :
    parse_rotation_suffix (codes "a.log.20240102_030405.4294967297") (codes "a.log")
    ≡ some (stamp, 1)
unfolding parse_rotation_suffix strip_prefix is_timestamp all_digits is_digit parse_seq parse_digits
wraps = refl

not_rotated : parse_rotation_suffix (codes "a.log.20240102_03040x") (codes "a.log") ≡ none
unfolding parse_rotation_suffix strip_prefix is_timestamp all_digits is_digit parse_seq parse_digits
not_rotated = refl

-- One rotation has happened in this second.
abbrev exists : Bytes → Bool
exists name = bytes_eq name (codes "a.log.20240102_030405")

rotated_name_recognised_example :
    ((name : Bytes)
      → rotated_name exists (codes "a.log") stamp ≡ some name
      → (exists name ≡ false)
        × ((n : ℕ) × (n < 10000) × (parse_rotation_suffix name (codes "a.log") ≡ some (stamp, n))))
    × (rotated_name exists (codes "a.log") stamp ≡ none
        → (exists (rotated_base (codes "a.log") stamp) ≡ true)
          × ((n : ℕ)
              → 1 ≤ n
              → n < 10000
              → exists (with_seq (rotated_base (codes "a.log") stamp) n) ≡ true))
rotated_name_recognised_example = rotated_name_recognised exists (codes "a.log") stamp stamp-IsStamp

-- A `strftime` that writes each field in decimal digits.
abbrev writes_digits : Bytes → UtcTime → Option Bytes
writes_digits format t = some (
    padded 4 t.year
    ++ padded 2 t.month
    ++ padded 2 t.day
    ++ (95 ∷ padded 2 t.hour ++ padded 2 t.minute ++ padded 2 t.second))

abbrev noon : UtcTime
noon = record { year = 2024; month = 1; day = 2; hour = 12; minute = 0; second = 5 }

at_noon : make_timestamp_utc writes_digits noon ≡ codes "20240102_120005"
unfolding make_timestamp_utc
at_noon = refl

at_noon-IsStamp : IsStamp (make_timestamp_utc writes_digits noon)
at_noon-IsStamp = make_timestamp_utc-IsStamp writes_digits noon (inr refl)
