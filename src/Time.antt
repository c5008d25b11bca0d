-- ===== src/Time.antt =====
-- The time of the records: logger_core/include/logger/time_source.hpp and global_time.hpp,
-- dummy_time_source.hpp and posix_time_source.hpp beside them, and logger_core/src/global_time.cpp,
-- dummy_time_source.cpp and posix_time_source.cpp.
-- A source is known by its pointer.
mod Tests
pub mod Snapshots
use sim_logger.Prelude.{
  ℕ, suc, ◌+◌, ◌-◌, Bool, Option, none, some, ℤ, pos, negsuc, leb, ◌==◌, if◌then◌else◌,
}

-- What the three methods of `ITimeSource` return.
pub record Reading (D : Type 0) : Type 0 where
  pub sim_time : D
  pub mission_elapsed : D
  pub wall_time_ns : ℤ

-- `installed` and `fallback` are the process-wide state; `snapshots` is `tls_snapshot` of each thread.
pub record GlobalTime : Type 0 where
  pub installed : Option ℕ
  pub fallback : ℕ
  pub snapshots : ℕ → Option ℕ

unfoldable pub set_global_time_source : Option ℕ → GlobalTime → GlobalTime
set_global_time_source source t = record t { installed = source }

unfoldable pub global_time_source : GlobalTime → ℕ
global_time_source t = elim t.installed [ some p ↦ p | none ↦ t.fallback ]

-- Called by a thread: the source whose reference it gets.
unfoldable pub global_time_source_ref : ℕ → GlobalTime → ℕ × GlobalTime
unfolding global_time_source
global_time_source_ref thread t = (
  global_time_source t,
  record t { snapshots = λ i. if i == thread then some (global_time_source t) else t.snapshots i },
)

-- The difference of two natural numbers.
abbrev pub minus : ℕ → ℕ → ℤ
minus a b = if leb b a then pos (a - b) else negsuc (b - a - 1)

-- The sum of two `int64_t` numbers, where it has 64 bits.
unfoldable pub add_i64 : ℤ → ℤ → ℤ
add_i64 (pos a) (pos b) = pos (a + b)
add_i64 (pos a) (negsuc b) = minus a (suc b)
add_i64 (negsuc a) (pos b) = minus b (suc a)
add_i64 (negsuc a) (negsuc b) = negsuc (suc (a + b))

-- The constructors of `DummyTimeSource`, where `zero_time` is the `double` 0.0.
unfoldable pub dummy_time_source : {D : Type 0} → D → D → ℤ → Reading D
dummy_time_source sim_time met wall_time_ns = record {
  sim_time = sim_time;
  mission_elapsed = met;
  wall_time_ns = wall_time_ns;
}

unfoldable pub default_dummy_time_source : {D : Type 0} → D → Reading D
unfolding dummy_time_source
default_dummy_time_source zero_time = dummy_time_source zero_time zero_time (pos 0)

-- `DummyTimeSource`, whose state is what it returns; `add` is the sum of two `double` numbers.
unfoldable pub advance : {D : Type 0} → (D → D → D) → D → D → ℤ → Reading D → Reading D
unfolding add_i64
advance add sim_delta met_delta wall_delta_ns s = record {
  sim_time = add s.sim_time sim_delta;
  mission_elapsed = add s.mission_elapsed met_delta;
  wall_time_ns = add_i64 s.wall_time_ns wall_delta_ns;
}

-- `PosixTimeSource`: `zero_time` is the `double` 0.0, `now` the nanoseconds of the steady clock.
unfoldable pub posix_reading : {D : Type 0} → D → ℤ → Reading D
posix_reading zero_time now = record {
  sim_time = zero_time;
  mission_elapsed = zero_time;
  wall_time_ns = now;
}
