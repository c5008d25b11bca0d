-- ===== src/FileSink/Tests.antt =====
-- A line written to a file on a disk that fills up.
use sim_logger.Prelude.{ℕ, Bool, true, false, [], ◌∷◌, some, ◌≡◌, refl, ◌==◌, codes, bytes_eq}
use sim_logger.Disk.{Disk, get, put, text_of, written_at, fwrite}
use sim_logger.FileSink.{FileSink, ends_line, write_all_or_throw, write_line}

abbrev sink : FileSink
sink = record {
  path = codes "a.log";
  formatter = record { pattern = codes "{msg}"; tokens = codes "msg" ∷ [] };
  durable_flush = false;
  file = some (codes "a.log");
  bytes_written = 3;
}

abbrev disk : Disk
disk = record { files = record { name = codes "a.log"; content = codes "old" } ∷ []; calls = 0 }

-- The second call writes two bytes only.
abbrev second : ℕ → Bool
second i = i == 1

abbrev two_bytes : ℕ → ℕ
two_bytes i = 2

-- The line fits, and its newline is the call that fails.
line_unended : (write_line second two_bytes (codes "hot") sink disk).0 ≡ true
unfolding write_line write_all_or_throw fwrite written_at text_of get put bytes_eq ends_line
line_unended = refl
