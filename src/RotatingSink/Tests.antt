-- ===== src/RotatingSink/Tests.antt =====
-- A small rotating sink: on a disk that works, and on one whose second call, a rename, fails.
use sim_logger.Prelude.{
  ℕ, Bool, true, false, List, [], ◌∷◌, ◌++◌, inl, some, ◌≡◌, refl, arith, ◌==◌, length, replicate,
  Bytes, codes, bytes_eq,
}
use sim_logger.Disk.{
  Disk, get, put, del, text_of, has_file, fopen, file_size_or_zero, written_at, fwrite, fflush,
  rename,
}
use sim_logger.FileSink.{
  ends_line, write_all_or_throw, close, flush_locked, write_line, open_locked, reopen,
}
use sim_logger.Rotation.{rotated_base, rotated_name}
use sim_logger.Prune.{prune}
use sim_logger.RotatingSink.{
  RotatingFileSink, projected, resume, move_away, rotate, append, write_formatted,
}
use sim_logger.RotatingSink.Rotate.{IsSink}
use sim_logger.RotatingSink.Log.{Line, write_lines, LosesNothing, rotations_lose_nothing}
use sim_logger.RotatingSink.Closed.{failed_rotation_is_final}
use sim_logger.RotatingSink.Bounded.{IsAccurate, IsBounded, write_formatted-IsBounded}

abbrev base : Bytes
base = codes "a.log"

abbrev sink : RotatingFileSink
sink = record {
  base = record {
    path = base;
    formatter = record { pattern = codes "{msg}"; tokens = codes "msg" ∷ [] };
    durable_flush = false;
    file = some base;
    bytes_written = 3;
  };
  base_path = base;
  max_bytes = 6;
  rotations_performed = 0;
  max_rotated_files = 0;
}

abbrev disk : Disk
disk = record { files = record { name = base; content = codes "old" } ∷ []; calls = 0 }

abbrev never_fails : ℕ → Bool
never_fails i = false

abbrev nothing_short : ℕ → ℕ
nothing_short i = 0

abbrev all_seen : ℕ → Bytes → Bool
all_seen i n = false

abbrev noon : Bytes
noon = codes "20240102_120000"

abbrev lines : List Line
lines = record { time = noon; text = codes "hot" } ∷ record { time = noon; text = codes "x" } ∷ []

-- Both lines rotate the file; the second takes a sequence number.
moved_away :
    get
      (base ++ codes ".20240102_120000")
      (write_formatted never_fails nothing_short all_seen noon (codes "hot") sink disk).2.files
    ≡ some (codes "old")
unfolding write_formatted projected rotate move_away resume append write_line write_all_or_throw
    ends_line close flush_locked reopen open_locked fopen file_size_or_zero fwrite written_at fflush
    rename has_file rotated_name rotated_base prune get put del text_of bytes_eq
moved_away = refl

sink-IsSink : IsSink sink
sink-IsSink = record { stream = inl refl }

sink-IsAccurate : IsAccurate sink disk
unfolding text_of get bytes_eq
sink-IsAccurate = record { stream = refl; sized = refl }

rotations_lose_nothing_example :
    LosesNothing base lines disk.files
      (write_lines never_fails nothing_short all_seen lines sink disk)
rotations_lose_nothing_example =
    rotations_lose_nothing never_fails nothing_short all_seen lines sink disk (λ i n. refl)
      sink-IsSink refl

-- Where the test for its existence fails, a file of the rotated name is overwritten.
overwritten :
    let taken = base ++ codes ".20240102_120000" in
    let d : Disk = record {
      files =
          record { name = base; content = codes "old" }
          ∷ record { name = taken; content = codes "kept" }
          ∷ [];
      calls = 0;
    } in
    get taken
      (write_formatted never_fails nothing_short (λ i n. true) noon (codes "hot") sink d).2.files
    ≡ some (codes "old")
unfolding write_formatted projected rotate move_away resume append write_line write_all_or_throw
    ends_line close flush_locked reopen open_locked fopen file_size_or_zero fwrite written_at fflush
    rename has_file rotated_name rotated_base prune get put del text_of bytes_eq
overwritten = refl

line_fits :
    (write_formatted never_fails nothing_short all_seen noon (codes "hot") sink disk).0 ≡ true
unfolding write_formatted projected rotate move_away resume append write_line write_all_or_throw
    ends_line close flush_locked reopen open_locked fopen file_size_or_zero fwrite written_at fflush
    rename has_file rotated_name rotated_base prune get put del text_of bytes_eq
line_fits = refl

small_sizes : length (text_of base disk.files) ≡ 3
unfolding text_of get bytes_eq
small_sizes = refl

write_formatted-IsBounded_example :
    IsBounded never_fails nothing_short all_seen sink
      (codes "hot")
      (write_formatted never_fails nothing_short all_seen noon (codes "hot") sink disk)
unfolding text_of get bytes_eq ends_line
write_formatted-IsBounded_example =
    write_formatted-IsBounded never_fails nothing_short all_seen noon (codes "hot") sink disk
      sink-IsSink sink-IsAccurate (omega arith) line_fits

abbrev rename_fails : ℕ → Bool
rename_fails i = i == 1

failed_rotation_is_final_example :
    let (lost, s, d) = rotate rename_fails nothing_short all_seen noon sink disk in
    write_lines rename_fails nothing_short all_seen lines s d
    ≡ (replicate (length lines) false, s, d)
unfolding rotate move_away flush_locked fflush rename has_file rotated_name rotated_base get
    bytes_eq
failed_rotation_is_final_example =
    failed_rotation_is_final rename_fails nothing_short all_seen noon lines sink disk refl refl
