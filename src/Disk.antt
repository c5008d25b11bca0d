-- ===== src/Disk.antt =====
-- What the file sinks use of the C and C++ file functions: one directory of regular files, in which
-- any call may fail. A stream and its file are one: buffers between them are left out, so a flush
-- only succeeds or fails.
pub mod Files
use sim_logger.Prelude.{
  ℕ, suc, ◌+◌, Bool, true, false, List, [], ◌∷◌, ◌++◌, Option, none, some, ◌==◌, if◌then◌else◌,
  length, take, map, Bytes, bytes_eq, min,
}

pub record File : Type 0 where
  pub name : Bytes
  pub content : Bytes

-- `calls` counts the calls made so far.
pub record Disk : Type 0 where
  pub files : List File
  pub calls : ℕ

-- The content under a name.
unfoldable pub get : Bytes → List File → Option Bytes
get n [] = none
get n (f ∷ fs) = if bytes_eq f.name n then some f.content else get n fs

unfoldable pub put : Bytes → Bytes → List File → List File
put n c [] = record { name = n; content = c } ∷ []
put n c (f ∷ fs) =
    if bytes_eq f.name n then record { name = n; content = c } ∷ fs else f ∷ put n c fs

unfoldable pub del : Bytes → List File → List File
del n [] = []
del n (f ∷ fs) = let rest = del n fs in if bytes_eq f.name n then rest else f ∷ rest

-- The content, where a missing file counts as empty.
unfoldable pub text_of : Bytes → List File → Bytes
unfolding get
text_of n fs = elim (get n fs) [ some c ↦ c | none ↦ [] ]

-- `fs::exists` with an error code: where the test fails, as `unseen` tells by the number of calls
-- before it and by the name, the answer is `false`.
unfoldable pub has_file : (ℕ → Bytes → Bool) → Disk → Bytes → Bool
unfolding get
has_file unseen d n =
    if unseen d.calls n then false else elim (get n d.files) [ some c ↦ true | none ↦ false ]

-- Call number `i` fails if `fails i`; a failing `fwrite` has written the first `short i` bytes.
module _ (fails : ℕ → Bool) (short : ℕ → ℕ) where
  abbrev pub ticked : Disk → List File → Disk
  ticked d fs = record { files = fs; calls = suc d.calls }

  -- `fopen` in append mode: a missing file is created.
  unfoldable pub fopen : Bytes → Disk → Bool × Disk
  unfolding text_of put
  fopen n d =
      if fails d.calls
      then (false, ticked d d.files)
      else (true, ticked d (put n (text_of n d.files) d.files))

  -- `fseek` and `ftell`: the size, or 0 if one of them fails.
  unfoldable pub file_size_or_zero : Bytes → Disk → ℕ × Disk
  unfolding text_of
  file_size_or_zero n d =
      (if fails d.calls then 0 else length (text_of n d.files), ticked d d.files)

  -- The number of bytes that `fwrite` writes.
  unfoldable pub written_at : ℕ → ℕ → ℕ
  written_at i size = if fails i then min (short i) size else size

  -- `fwrite` succeeds if it writes all bytes.
  unfoldable pub fwrite : Bytes → Bytes → Disk → Bool × Disk
  unfolding text_of put written_at
  fwrite n text d =
      let k = written_at d.calls (length text) in
      (k == length text, ticked d (put n (text_of n d.files ++ take k text) d.files))

  -- `fflush`, and `fileno` with `fsync`
  unfoldable pub fflush : Disk → Bool × Disk
  fflush d = (if fails d.calls then false else true, ticked d d.files)

  -- `rename` replaces a file that has the new name.
  unfoldable pub rename : Bytes → Bytes → Disk → Bool × Disk
  unfolding get put del
  rename from to d = elim (get from d.files) [
    | none ↦ (false, ticked d d.files)
    | some c ↦
        if fails d.calls
        then (false, ticked d d.files)
        else (true, ticked d (put to c (del from d.files)))
  ]

  -- `directory_iterator`: the names, or none if it fails.
  unfoldable pub list_names : Disk → List Bytes × Disk
  list_names d = (if fails d.calls then [] else map (λ f. f.name) d.files, ticked d d.files)

  -- `fs::remove`, whose failure is ignored
  unfoldable pub remove : Bytes → Disk → Disk
  unfolding del
  remove n d = ticked d (if fails d.calls then d.files else del n d.files)
