-- ===== src/Level/Tests.antt =====
-- Level names at some texts.
use sim_logger.Prelude.{◌↔◌, ◌≡◌, some, none, refl, codes}
use sim_logger.Level.{
  warn, to_string, level_from_string, iequals_ascii, iequals_from, to_upper_ascii,
}
use sim_logger.Level.Parse.{Names, level_from_string_iff}

no_level : level_from_string (codes "warn ") ≡ none
unfolding level_from_string iequals_ascii iequals_from to_upper_ascii
no_level = refl

level_from_string_iff_example :
    ((level_from_string (codes "wArning") ≡ some warn) ↔ Names warn (codes "wArning"))
    × (level_from_string (to_string warn) ≡ some warn)
level_from_string_iff_example = level_from_string_iff (codes "wArning") warn
