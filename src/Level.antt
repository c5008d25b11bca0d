-- ===== src/Level.antt =====
-- Severity levels: logger_core/include/logger/level.hpp and logger_core/src/level.cpp.
-- A `char` is its byte; the code treats bytes above 127 as it treats any that is no letter.
mod Tests
pub mod Parse
use sim_logger.Prelude.{
  ℕ, ◌+◌, ◌-◌, Bool, true, false, ◌&&◌, ◌||◌, List, [], ◌∷◌, Option, none, some, ℤ, pos, negsuc,
  Bytes, codes, leb, ◌==◌, if◌then◌else◌, length,
}

-- The enumerators; a `Level` cast from another number does not occur in the program.
pub data Level : Type 0 where
  debug info warn error fatal : Level

-- `static_cast<uint8_t>(level)`
abbrev pub severity : Level → ℕ
severity debug = 0
severity info = 1
severity warn = 2
severity error = 3
severity fatal = 4

pub to_upper_ascii : ℕ → ℕ
to_upper_ascii c = if leb b'a' c && leb c b'z' then c - b'a' + b'A' else c

-- the loop of `iequals_ascii`, entered with strings of one length
iequals_from : Bytes → Bytes → Bool
unfolding to_upper_ascii
iequals_from (x ∷ a) (y ∷ b) =
    let rest = iequals_from a b in if to_upper_ascii x == to_upper_ascii y then rest else false
iequals_from _ _ = true

iequals_ascii : Bytes → Bytes → Bool
unfolding iequals_from
iequals_ascii a b = if length a == length b then iequals_from a b else false

unfoldable pub to_string : Level → Bytes
to_string debug = codes "DEBUG"
to_string info = codes "INFO"
to_string warn = codes "WARN"
to_string error = codes "ERROR"
to_string fatal = codes "FATAL"

unfoldable pub level_from_string : Bytes → Option Level
unfolding iequals_ascii
level_from_string s =
    if iequals_ascii s (codes "DEBUG")
    then some debug
    else if iequals_ascii s (codes "INFO")
    then some info
    else if iequals_ascii s (codes "WARN") || iequals_ascii s (codes "WARNING")
    then some warn
    else if iequals_ascii s (codes "ERROR")
    then some error
    else if iequals_ascii s (codes "FATAL")
    then some fatal
    else none

unfoldable pub level_from_int : ℤ → Option Level
level_from_int (pos n) =
    if n == 0 || n == 1
    then some info
    else if n == 2
    then some warn
    else if n == 3
    then some error
    else if n == 10
    then some debug
    else none
level_from_int (negsuc n) = none

unfoldable pub is_at_least : Level → Level → Bool
is_at_least msg threshold = leb (severity threshold) (severity msg)
