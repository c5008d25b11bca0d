-- ===== src/Rotation/Stamp.antt =====
-- The timestamps of rotated files have the right shape.
use sim_logger.Prelude.{
  ℕ, zero, suc, ◌+◌, ◌%◌, ◌/◌, true, [], ◌∷◌, ◌++◌, Option, none, some, ◌≡◌, ◌⊎◌, inl, inr, refl,
  arith, Bytes, codes,
}
use sim_logger.Rotation.{UtcTime, make_timestamp_utc, is_digit, all_digits, is_timestamp}
use sim_logger.Rotation.Suffix.{IsStamp}

-- The last digits of a number, with zeros in front.
abbrev pub padded : ℕ → ℕ → Bytes
padded zero n = []
padded (suc k) n = padded k (n / 10) ++ ((48 + n % 10) ∷ [])

-- What `strftime` is documented to give for the format of the timestamps, where it gives something.
abbrev pub IsStrftime : (Bytes → UtcTime → Option Bytes) → UtcTime → Type 0
IsStrftime strftime t =
    (strftime (codes "%Y%m%d_%H%M%S") t ≡ none)
    ⊎ (strftime (codes "%Y%m%d_%H%M%S") t
        ≡ some (
            padded 4 t.year
            ++ padded 2 t.month
            ++ padded 2 t.day
            ++ (95 ∷ padded 2 t.hour ++ padded 2 t.minute ++ padded 2 t.second)))

last_digit : (n : ℕ) → is_digit (48 + n % 10) ≡ true
unfolding is_digit
last_digit n = ground arith

padded-IsStamp :
    (a b c d e f : ℕ)
    → IsStamp
        (padded 4 a ++ padded 2 b ++ padded 2 c ++ (95 ∷ padded 2 d ++ padded 2 e ++ padded 2 f))
unfolding is_timestamp all_digits
padded-IsStamp a b c d e f = record { size = refl; shape = simp last_digit }

-- Where `strftime` gives the digits of the year, the month, the day, the hour, the minute and the
-- second, or nothing, the timestamp has the shape that the pruning looks for.
pub make_timestamp_utc-IsStamp :
    (strftime : Bytes → UtcTime → Option Bytes) (t : UtcTime)
    → IsStrftime strftime t
    → IsStamp (make_timestamp_utc strftime t)
unfolding make_timestamp_utc is_timestamp all_digits is_digit
make_timestamp_utc-IsStamp strftime t (inl e) =
    rw (e, make_timestamp_utc) (record { size = refl; shape = refl })
make_timestamp_utc-IsStamp strftime t (inr e) =
    rw (e, make_timestamp_utc) (padded-IsStamp t.year t.month t.day t.hour t.minute t.second)
