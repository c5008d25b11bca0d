-- ===== src/Logger.antt =====
-- Hierarchical loggers: logger_core/include/logger/logger.hpp and logger_core/src/logger.cpp.
-- Loggers live in a heap and point to their parents by weak pointers. Each function runs between the
-- lock and the unlock of the mutexes that it takes; a failing allocation is left out.
mod Tests
pub mod Effective
pub mod Emit
pub mod Change
pub mod Settings
use sim_logger.Prelude.{
  ℕ, zero, suc, ◌+◌, ◌%◌, ◌^◌, Bool, true, false, List, [], ◌∷◌, ◌++◌, Option, none, some, ltb,
  if◌then◌else◌, get_elem?, set, length, Bytes,
}
use sim_logger.Level.{Level, info, severity}
use sim_logger.Sink.{SinkPtr, Sinks}

-- A weak pointer holds the index of its target, which may be gone.
pub record Logger : Type 0 where
  pub name : Bytes
  pub level : Level
  pub level_overridden : Bool
  pub sinks : List SinkPtr
  pub sinks_overridden : Bool
  pub immediate_flush : Bool
  pub immediate_flush_overridden : Bool
  pub parent_ptr : Option ℕ
  pub dropped_records_count : ℕ
  pub sink_failures_count : ℕ

-- The cell of a destroyed logger is `none`.
abbrev pub Heap : Type 0
Heap = List (Option Logger)

abbrev pub u64_mod : ℕ
u64_mod = 2 ^ 64

-- the constructor
unfoldable pub new_logger : Bytes → Logger
new_logger name = record {
  name = name;
  level = info;
  level_overridden = false;
  sinks = [];
  sinks_overridden = false;
  immediate_flush = false;
  immediate_flush_overridden = false;
  parent_ptr = none;
  dropped_records_count = 0;
  sink_failures_count = 0;
}

unfoldable pub set_level : Level → Logger → Logger
set_level v l = record l { level = v; level_overridden = true }

unfoldable pub clear_level_override : Logger → Logger
clear_level_override l = record l { level_overridden = false }

unfoldable pub add_sink : SinkPtr → Logger → Logger
add_sink s l = record l { sinks = l.sinks ++ (s ∷ []); sinks_overridden = true }

unfoldable pub set_sinks : List SinkPtr → Logger → Logger
set_sinks ss l = record l { sinks = ss; sinks_overridden = true }

unfoldable pub clear_sink_override : Logger → Logger
clear_sink_override l = record l { sinks = []; sinks_overridden = false }

unfoldable pub set_immediate_flush : Bool → Logger → Logger
set_immediate_flush b l = record l { immediate_flush = b; immediate_flush_overridden = true }

unfoldable pub clear_immediate_flush_override : Logger → Logger
clear_immediate_flush_override l = record l { immediate_flush_overridden = false }

unfoldable pub set_parent : Option ℕ → Logger → Logger
set_parent p l = record l { parent_ptr = p }

-- The logger in a cell.
unfoldable pub fetch : Heap → ℕ → Option Logger
fetch h i = elim (get_elem? h i) [ some (some l) ↦ some l | _ ↦ none ]

-- `weak_ptr::lock`, and `parent`
unfoldable pub lock : Heap → Option ℕ → Option Logger
unfolding fetch
lock h none = none
lock h (some i) = fetch h i

-- A change of the logger in a cell.
unfoldable pub modify : Heap → ℕ → (Logger → Logger) → Heap
unfolding fetch
modify h i f = elim (fetch h i) [ some l ↦ set h i (some (f l)) | none ↦ h ]

-- The common body of the three `effective_` methods: the own value of a logger that overrides it,
-- else that of its parent, else a last resort. `none`: the fuel ran out.
module _ {X : Type 0} (overrides : Logger → Bool) (own last : Logger → X) where
  unfoldable pub inherit : ℕ → Heap → Logger → Option X
  inherit zero h l = none
  inherit (suc fuel) h l = elim (overrides l) [
    | true ↦ some (own l)
    | false ↦ elim (lock h l.parent_ptr) [ some p ↦ inherit fuel h p | none ↦ some (last l) ]
  ]

-- A chain of parents visits each cell once at most, beside the logger that it starts from.
abbrev pub enough : Heap → ℕ
enough h = suc (length h)

unfoldable pub effective_level : Heap → Logger → Option Level
effective_level h = inherit (λ l. l.level_overridden) (λ l. l.level) (λ l. l.level) (enough h) h

unfoldable pub effective_sinks : Heap → Logger → Option (List SinkPtr)
effective_sinks h = inherit (λ l. l.sinks_overridden) (λ l. l.sinks) (λ l. []) (enough h) h

unfoldable pub effective_immediate_flush : Heap → Logger → Option Bool
effective_immediate_flush h =
    inherit (λ l. l.immediate_flush_overridden) (λ l. l.immediate_flush) (λ l. l.immediate_flush)
      (enough h) h

module _ {R W : Type 0} (behave : Sinks R W) where
  -- The body of the loop's `try`: whether it threw, and the state of the sinks.
  unfoldable pub emit_to : Bool → R → SinkPtr → W → Bool × W
  emit_to do_flush r s w =
      let (threw, w') = behave.write s r w in
      if threw then (true, w') else if do_flush then behave.flush s w' else (false, w')

  -- The loop over the sinks, with the counter of failures.
  unfoldable pub emit_all : Bool → R → List SinkPtr → W → ℕ → W × ℕ
  emit_all do_flush r [] w failures = (w, failures)
  emit_all do_flush r (s ∷ ss) w failures =
      let (threw, w') = emit_to do_flush r s w in
      emit_all do_flush r ss w' (if threw then (failures + 1) % u64_mod else failures)

  -- `log` on the logger in cell `i`, for a record of level `level`; `none` if a chain of parents is
  -- not followed to its end.
  unfoldable pub log : Heap → ℕ → Logger → Level → R → W → Option (Heap × W)
  log h i l level r w = elim (effective_level h l) [
    | none ↦ none
    | some threshold ↦
        if ltb (severity level) (severity threshold)
        then some (h, w)
        else elim (effective_sinks h l) [
          | none ↦ none
          | some ss ↦ elim (effective_immediate_flush h l) [
            | none ↦ none
            | some do_flush ↦
                let (w', failures) = emit_all do_flush r ss w l.sink_failures_count in
                some (modify h i (λ l'. record l' { sink_failures_count = failures }), w')
          ]
        ]
  ]
