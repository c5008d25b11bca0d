-- ===== src/Console/Tests.antt =====
-- A warning on a terminal.
use sim_logger.Prelude.{
  ℕ, Bool, true, false, [], ◌∷◌, ◌++◌, some, Option, ◌≡◌, refl, pos, Bytes, codes, bytes_eq,
}
use sim_logger.Formatter.{Printed, ok, runtime_error, format}
use sim_logger.Level.{warn}
use sim_logger.LogRecord.{LogRecord}
use sim_logger.Disk.{Disk, get, put, text_of, fwrite, written_at}
use sim_logger.FileSink.{ends_line}
use sim_logger.Console.{
  ConsoleSink, always, ansi_reset, ansi_prefix_for, and_then, skip, write_all_or_throw,
  write_formatted, write,
}
use sim_logger.Console.Shown.{Colours, Writes, shown, write-shown}

abbrev never_fails : ℕ → Bool
never_fails i = false

abbrev nothing_short : ℕ → ℕ
nothing_short i = 0

abbrev sink : ConsoleSink
sink = record {
  formatter = record { pattern = codes "{msg}"; tokens = codes "msg" ∷ [] };
  color_mode = always;
  stream = some (codes "tty");
}

abbrev empty_disk : Disk
empty_disk = record { files = []; calls = 0 }

yellow :
    text_of
      (codes "tty")
      (write_formatted never_fails nothing_short true warn (codes "hot") sink empty_disk).1.files
    ≡ (27 ∷ codes "[33mhot") ++ (10 ∷ ansi_reset)
unfolding write_formatted and_then ansi_prefix_for write_all_or_throw fwrite written_at text_of get
    put bytes_eq ends_line skip
yellow = refl

abbrev prints : ℕ → Option Printed
prints x = some (record { text = codes "0"; behind = [] })

abbrev hashes : ℕ → ℕ
hashes x = x

abbrev is_terminal : Bytes → Bool
is_terminal n = true

abbrev sample : LogRecord ℕ ℕ
sample = record {
  level = warn;
  sim_time = 1;
  met = 2;
  wall_time_ns = pos 3;
  thread_id = 4;
  file = codes "a.cpp";
  line = 5;
  function = codes "f";
  logger_name = codes "root";
  tags = [];
  message = codes "hot";
}

write-shown_example :
    ((line : Bytes)
      → format prints hashes sample sink.formatter.pattern ≡ some (ok line)
      → (colorize : Bool) × Colours true always colorize
        × Writes
            (codes "tty")
            (shown colorize warn line)
            (write never_fails nothing_short prints hashes is_terminal sample sink))
    × (format prints hashes sample sink.formatter.pattern ≡ some runtime_error
        → (d : Disk)
        → write never_fails nothing_short prints hashes is_terminal sample sink d ≡ (false, d))
write-shown_example =
    write-shown never_fails nothing_short prints hashes is_terminal sample (codes "tty") sink refl
