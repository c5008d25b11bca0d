-- ===== src/Formatter/Tests.antt =====
-- The formatter's theorems at one record and some patterns.
use sim_logger.Prelude.{
  ℕ, ◌+◌, true, [], ◌∷◌, ◌++◌, Option, some, none, ◌≡◌, refl, pos, negsuc, arith, Bytes, codes,
  bytes_eq,
}
use sim_logger.Level.{warn, to_string}
use sim_logger.LogRecord.{LogRecord}
use sim_logger.Formatter.{
  Printed, read_buffer, ok, digits, to_chars, append_chars, append_u64, append_u32, append_double,
  append_token, to_u64, until_close, format_from, format, is_token_char, all_token_chars, contains,
  emplace, extract_from, extract_tokens, PatternFormatter, new_formatter,
}
use sim_logger.Formatter.Decimal.{IsDecimal, append_chars_fits}
use sim_logger.Formatter.Fields.{IsPrintable}
use sim_logger.Formatter.Format.{Renders, format-Renders}
use sim_logger.Formatter.Tokens.{ShowsMet, required_met_shown}

-- Whole seconds.
abbrev prints : ℕ → Option Printed
prints x = some (record { text = (48 + x) ∷ codes ".000000"; behind = [] })

abbrev hashes : ℕ → ℕ
hashes id = id

abbrev sample : LogRecord ℕ ℕ
sample = record {
  level = warn;
  sim_time = 1;
  met = 2;
  wall_time_ns = pos 30;
  thread_id = 4;
  file = codes "a.cpp";
  line = 50;
  function = codes "f";
  logger_name = codes "root";
  tags = [];
  message = codes "hot";
}

sample-IsPrintable : IsPrintable prints hashes sample
sample-IsPrintable = record {
  sim_text = (record { text = codes "1.000000"; behind = [] }, refl, refl);
  met_text = (record { text = codes "2.000000"; behind = [] }, refl, refl);
  line_width = omega arith;
}

-- Known tokens, an unknown one, and a brace that is not closed.
formatted :
    format prints hashes sample (codes "{met} {level}:{line} {msg}{x} {msg")
    ≡ some (ok (codes "2.000000 WARN:50 hot{x} {msg"))
unfolding format format_from append_token append_double read_buffer append_u32 append_u64
    append_chars to_chars digits until_close bytes_eq to_string to_u64
formatted = refl

-- A time that prints to 65 characters: the end mark and a byte from behind the buffer follow the 63
-- that it holds.
abbrev wide : ℕ → Option Printed
wide x = some (record {
  text = codes "1000000000000000000000000000000000000000000000000000000000.000000";
  behind = codes "?!";
})

too_wide :
    append_double wide hashes [] 0
    ≡ ok
        (codes "1000000000000000000000000000000000000000000000000000000000.0000" ++ (0 ∷ codes "?"))
unfolding append_double read_buffer
too_wide = refl

-- A wall time before the epoch.
before_epoch : to_u64 (negsuc 0) ≡ 18446744073709551615
unfolding to_u64
before_epoch = refl

append_chars_fits_example :
    ((s : Bytes) × (append_u64 [] 18446744073709551615 ≡ ok ([] ++ s))
      × IsDecimal 18446744073709551615 s)
    × ((s : Bytes) × (append_u32 [] 4294967295 ≡ ok ([] ++ s)) × IsDecimal 4294967295 s)
append_chars_fits_example =
    append_chars_fits [] 18446744073709551615 4294967295 (omega arith) (omega arith)

format-Renders_example :
    (o : Bytes) × (format prints hashes sample (codes "{met} {msg}{x} {") ≡ some (ok o))
    × Renders prints hashes sample (codes "{met} {msg}{x} {") o
format-Renders_example =
    format-Renders prints hashes sample (codes "{met} {msg}{x} {") sample-IsPrintable

abbrev formatter : PatternFormatter
formatter = record { pattern = codes "{met} {msg}"; tokens = codes "msg" ∷ codes "met" ∷ [] }

constructed : new_formatter (codes "{met} {msg}") true ≡ some (some formatter)
unfolding new_formatter extract_tokens extract_from until_close all_token_chars is_token_char
    contains emplace bytes_eq
constructed = refl

refused : new_formatter (codes "{m} {msg}") true ≡ some none
unfolding new_formatter extract_tokens extract_from until_close all_token_chars is_token_char
    contains emplace bytes_eq
refused = refl

required_met_shown_example :
    (o : Bytes) × (format prints hashes sample (codes "{met} {msg}") ≡ some (ok o))
    × ShowsMet prints hashes sample o
required_met_shown_example =
    required_met_shown prints hashes sample (codes "{met} {msg}") formatter sample-IsPrintable
      constructed
