-- ===== src/Formatter.antt =====
-- Formatting of records by a pattern: logger_core/include/logger/pattern_formatter.hpp and
-- logger_core/src/pattern_formatter.cpp.
mod Tests
pub mod Decimal
pub mod Shape
pub mod Fields
pub mod Format
pub mod Tokens
use sim_logger.Prelude.{
  ℕ, zero, suc, ◌+◌, ◌-◌, ◌/◌, ◌%◌, ◌^◌, Bool, true, false, not, ◌&&◌, ◌||◌, List, [], ◌∷◌, ◌++◌,
  Option, none, some, ℤ, pos, negsuc, ltb, leb, ◌==◌, if◌then◌else◌, length, take, Bytes, codes,
  bytes_eq,
}
use sim_logger.Level.{to_string}
use sim_logger.LogRecord.{LogRecord}

-- The text that was built, or what went wrong: an exception of type `runtime_error`, or a read
-- behind the end of a buffer.
pub data Result : Type 0 where
  ok : Bytes → Result
  runtime_error : Result

-- The decimal digits of a number; the fuel is the number of digits that there may be.
unfoldable pub digits : ℕ → ℕ → Bytes
digits zero n = []
digits (suc fuel) n =
    let front = digits fuel (n / 10) in
    if ltb n 10 then (48 + n) ∷ [] else front ++ ((48 + n % 10) ∷ [])

-- `std::to_chars` into a buffer of a size; `none` is an error. A `uint64_t` has 20 digits at most.
unfoldable pub to_chars : ℕ → ℕ → Option Bytes
unfolding digits
to_chars size n = if leb (length (digits 20 n)) size then some (digits 20 n) else none

unfoldable pub append_chars : Bytes → Option Bytes → Result
append_chars out none = runtime_error
append_chars out (some text) = ok (out ++ text)

unfoldable pub append_u64 : Bytes → ℕ → Result
unfolding to_chars append_chars
append_u64 out n = append_chars out (to_chars 32 n)

unfoldable pub append_u32 : Bytes → ℕ → Result
unfolding to_chars append_chars
append_u32 out n = append_chars out (to_chars 16 n)

-- The conversion from `int64_t` to `uint64_t`
unfoldable pub to_u64 : ℤ → ℕ
to_u64 (pos n) = n % 2 ^ 64
to_u64 (negsuc n) = 2 ^ 64 - 1 - n % 2 ^ 64

-- The loop that looks for '}': what stands before it and behind it.
unfoldable pub until_close : Bytes → Option (Bytes × Bytes)
until_close [] = none
until_close (c ∷ s) =
    let rest = until_close s in
    if c == 125
    then some ([], s)
    else elim rest [ none ↦ none | some (t, after) ↦ some (c ∷ t, after) ]

-- What `snprintf` has for a number: the whole text that it would print, which is cut to fit the
-- buffer, and the bytes that stand in memory behind the buffer, whatever they are.
pub record Printed : Type 0 where
  pub text : Bytes
  pub behind : Bytes

-- The bytes that `append` reads: the text and the end mark fill the buffer of 64 bytes at most, and
-- the length of the whole text leads it on behind the buffer.
unfoldable pub read_buffer : Printed → Bytes
read_buffer p =
    if ltb (length p.text) 64
    then p.text
    else take 63 p.text ++ (0 ∷ take (length p.text - 64) p.behind)

-- `snprintf` with "%.6f" is what it prints, or `none` for a negative result; `hash` is `std::hash`
-- of a thread id.
module _ {D T : Type 0} (snprintf : D → Option Printed) (hash : T → ℕ) where
  -- The result of `snprintf` is the length of the whole text, and no test compares it with the buffer.
  unfoldable pub append_double : Bytes → D → Result
  unfolding read_buffer
  append_double out x = elim (snprintf x) [
    | none ↦ runtime_error
    | some p ↦ ok (out ++ read_buffer p)
  ]

  unfoldable pub append_thread_id : Bytes → T → Result
  unfolding append_u64
  append_thread_id out id = append_u64 out (hash id % 2 ^ 64)

  module _ (r : LogRecord D T) where
    -- The chain of tests on a token.
    unfoldable pub append_token : Bytes → Bytes → Result
    unfolding bytes_eq append_double append_thread_id append_u64 append_u32 to_u64 to_string
    append_token out token =
        if bytes_eq token (codes "level")
        then ok (out ++ to_string r.level)
        else if bytes_eq token (codes "sim")
        then append_double out r.sim_time
        else if bytes_eq token (codes "met")
        then append_double out r.met
        else if bytes_eq token (codes "wall_ns")
        then append_u64 out (to_u64 r.wall_time_ns)
        else if bytes_eq token (codes "thread")
        then append_thread_id out r.thread_id
        else if bytes_eq token (codes "file")
        then ok (out ++ r.file)
        else if bytes_eq token (codes "line")
        then append_u32 out r.line
        else if bytes_eq token (codes "function")
        then ok (out ++ r.function)
        else if bytes_eq token (codes "logger")
        then ok (out ++ r.logger_name)
        else if bytes_eq token (codes "msg")
        then ok (out ++ r.message)
        else ok (out ++ (123 ∷ token ++ (125 ∷ [])))

    -- The loop of `format` on the rest of the pattern; `none`: the fuel ran out.
    unfoldable pub format_from : ℕ → Bytes → Bytes → Option Result
    unfolding append_token until_close
    format_from zero pat out = none
    format_from (suc fuel) [] out = some (ok out)
    format_from (suc fuel) (c ∷ pat) out = elim (c == 123) [
      | false ↦ format_from fuel pat (out ++ (c ∷ []))
      | true ↦ elim (until_close pat) [
        | none ↦ some (ok (out ++ (c ∷ pat)))
        | some (token, after) ↦ elim (append_token out token) [
          | ok out' ↦ format_from fuel after out'
          | runtime_error ↦ some runtime_error
        ]
      ]
    ]

    unfoldable pub format : Bytes → Option Result
    unfolding format_from
    format pattern = format_from (suc (length pattern)) pattern []

-- `isalnum` or an underscore
unfoldable pub is_token_char : ℕ → Bool
is_token_char c =
    (leb 48 c && leb c 57) || ((leb 65 c && leb c 90) || ((leb 97 c && leb c 122) || (c == 95)))

unfoldable pub all_token_chars : Bytes → Bool
unfolding is_token_char
all_token_chars [] = true
all_token_chars (c ∷ s) = is_token_char c && all_token_chars s

-- A set of strings as a list: `find` and `emplace`.
unfoldable pub contains : List Bytes → Bytes → Bool
unfolding bytes_eq
contains [] s = false
contains (t ∷ set) s = bytes_eq t s || contains set s

unfoldable pub emplace : List Bytes → Bytes → List Bytes
unfolding contains
emplace set s = if contains set s then set else s ∷ set

-- The loop of `extract_tokens` on the rest of the pattern; `none`: the fuel ran out.
unfoldable pub extract_from : ℕ → Bytes → List Bytes → Option (List Bytes)
unfolding until_close all_token_chars emplace
extract_from zero pat out = none
extract_from (suc fuel) [] out = some out
extract_from (suc fuel) (c ∷ pat) out = elim (c == 123) [
  | false ↦ extract_from fuel pat out
  | true ↦ elim (until_close pat) [
    | none ↦ some out
    | some (token, after) ↦
        extract_from fuel after
          (if ltb 0 (length token) && all_token_chars token then emplace out token else out)
  ]
]

unfoldable pub extract_tokens : Bytes → Option (List Bytes)
unfolding extract_from
extract_tokens pattern = extract_from (suc (length pattern)) pattern []

pub record PatternFormatter : Type 0 where
  pub pattern : Bytes
  pub tokens : List Bytes

-- The constructor; the inner `none` is the exception for a missing "{met}".
unfoldable pub new_formatter : Bytes → Bool → Option (Option PatternFormatter)
unfolding extract_tokens contains
new_formatter pattern require_met_token = elim (extract_tokens pattern) [
  | none ↦ none
  | some tokens ↦
      if require_met_token && not (contains tokens (codes "met"))
      then some none
      else some (some (record { pattern = pattern; tokens = tokens }))
]
