-- ===== src/Console/Shown.antt =====
-- What a write shows on the stream.
use sim_logger.Prelude.{
  ℕ, Bool, true, false, [], ◌∷◌, ◌++◌, Option, none, some, ◌≡◌, refl, sym, ap, ◌∙◌, subst,
  append-nil, append_assoc, Bool-cases, inl, inr, if◌then◌else◌, Bytes,
}
use sim_logger.Formatter.{Printed, ok, runtime_error, format}
use sim_logger.Level.{Level, debug, info, warn, error, fatal}
use sim_logger.LogRecord.{LogRecord}
use sim_logger.Disk.{Disk, text_of}
use sim_logger.FileSink.{ends_line, format_record}
use sim_logger.FileSink.Append.{full_line, Appended, Appended-trans, Appended-part, fwrite-outcome}
use sim_logger.Console.{
  ConsoleSink, ColorMode, auto, always, never, is_tty, ansi_prefix_for, should_colorize, Statement,
  skip, and_then, write_all_or_throw, write_formatted, write,
}

-- The escape sequences of the colours: yellow for a warning, red for an error or a fatal record, grey
-- for a debug record, and none for information; and that which ends a colour.
abbrev pub colour_start : Level → Bytes
colour_start debug = 27 ∷ 91 ∷ 57 ∷ 48 ∷ 109 ∷ []
colour_start info = []
colour_start warn = 27 ∷ 91 ∷ 51 ∷ 51 ∷ 109 ∷ []
colour_start error = 27 ∷ 91 ∷ 51 ∷ 49 ∷ 109 ∷ []
colour_start fatal = 27 ∷ 91 ∷ 51 ∷ 49 ∷ 109 ∷ []

abbrev pub colour_end : Bytes
colour_end = 27 ∷ 91 ∷ 48 ∷ 109 ∷ []

-- Whether a sink of this mode colours, by whether its stream is a terminal.
pub data Colours (terminal : Bool) : ColorMode → Bool → Type 0 where
  always_so : Colours terminal always true
  never_so : Colours terminal never false
  on_terminals : Colours terminal auto terminal

-- The text that a line is shown as.
abbrev pub shown : Bool → Level → Bytes → Bytes
shown colorize level line =
    if colorize then colour_start level ++ (full_line line ++ colour_end) else full_line line

should_colorize-Colours :
    (isatty : Bytes → Bool) (s : ConsoleSink) (n : Bytes) (m : ColorMode)
    → s.stream ≡ some n
    → s.color_mode ≡ m
    → Colours (isatty n) m (should_colorize isatty s)
unfolding should_colorize is_tty
should_colorize-Colours isatty s n always e f = rw (f, should_colorize) always_so
should_colorize-Colours isatty s n never e f = rw (f, should_colorize) never_so
should_colorize-Colours isatty s n auto e f = rw (f, should_colorize, e, is_tty) on_terminals

-- The statement appends the text to the file, or throws having appended a part from its start.
abbrev pub Writes : Bytes → Bytes → Statement → Type 0
Writes n text f = (d : Disk) → Appended n text d (f d).0 (f d).1

skip-Writes : (n : Bytes) → Writes n [] skip
unfolding skip
skip-Writes n d = record {
  added = [];
  missing = [];
  split = refl;
  complete = λ _. refl;
  grown = sym (append-nil (text_of n d.files));
  others = λ m h. refl;
}

after_first :
    (n x y : Bytes) (g : Statement) (d : Disk) (b : Bool) (d1 : Disk)
    → Appended n x d b d1
    → Writes n y g
    → let out = if b then g d1 else (false, d1) in Appended n (x ++ y) d out.0 out.1
after_first n x y g d true d1 a w = Appended-trans a refl (w d1)
after_first n x y g d false d1 a w = Appended-part y a

and_then-Writes :
    {n x y : Bytes} (f g : Statement)
    → Writes n x f
    → Writes n y g
    → Writes n (x ++ y) (and_then f g)
unfolding and_then
and_then-Writes {n = n} {x = x} {y = y} f g v w d = after_first n x y g d (f d).0 (f d).1 (v d) w

module _ (fails : ℕ → Bool) (short : ℕ → ℕ) where
  all-Writes :
      (n text : Bytes) (o : Option Bytes)
      → o ≡ some n
      → Writes n text (write_all_or_throw fails short o text)
  unfolding write_all_or_throw
  all-Writes n text o e =
      subst (λ p. Writes n text (write_all_or_throw fails short p text)) (sym e)
        (λ d. fwrite-outcome fails short n text d _ refl)

  prefix-Writes :
      (n : Bytes) (s : ConsoleSink) (level : Level)
      → s.stream ≡ some n
      → Writes n (colour_start level) (elim (ansi_prefix_for level) [
        | some p ↦ write_all_or_throw fails short s.stream p
        | none ↦ skip
      ])
  unfolding ansi_prefix_for
  prefix-Writes n s debug e = all-Writes n (colour_start debug) s.stream e
  prefix-Writes n s info e = skip-Writes n
  prefix-Writes n s warn e = all-Writes n (colour_start warn) s.stream e
  prefix-Writes n s error e = all-Writes n (colour_start error) s.stream e
  prefix-Writes n s fatal e = all-Writes n (colour_start fatal) s.stream e

  newline-Writes :
      (n line : Bytes) (s : ConsoleSink) (b : Bool)
      → s.stream ≡ some n
      → Writes n
          (if b then [] else 10 ∷ [])
          (if b then skip else write_all_or_throw fails short s.stream (10 ∷ []))
  newline-Writes n line s true e = skip-Writes n
  newline-Writes n line s false e = all-Writes n (10 ∷ []) s.stream e

  line_parts : (line : Bytes) → line ++ (if ends_line line then [] else 10 ∷ []) ≡ full_line line
  line_parts line = elim (Bool-cases (ends_line line)) [
    | inl e ↦ rw e (append-nil line)
    | inr e ↦ rw e
  ]

  line-Writes :
      (n line t : Bytes) (s : ConsoleSink) (g : Statement)
      → s.stream ≡ some n
      → Writes n t g
      → Writes n (full_line line ++ t) (
          and_then (write_all_or_throw fails short s.stream line) (
            and_then
              (if ends_line line then skip else write_all_or_throw fails short s.stream (10 ∷ []))
              g))
  line-Writes n line t s g e w =
      let write_line = write_all_or_throw fails short s.stream line in
      let write_newline =
        if ends_line line then skip else write_all_or_throw fails short s.stream (10 ∷ []) in
      subst (λ x. Writes n x (and_then write_line (and_then write_newline g)))
        (sym (append_assoc line (if ends_line line then [] else 10 ∷ []) t)
          ∙ ap (λ x. x ++ t) (line_parts line))
        (and_then-Writes write_line (and_then write_newline g) (all-Writes n line s.stream e)
          (and_then-Writes write_newline g (newline-Writes n line s (ends_line line) e) w))

  write_formatted-shown :
      (colorize : Bool) (level : Level) (n line : Bytes) (s : ConsoleSink)
      → s.stream ≡ some n
      → Writes n (shown colorize level line) (write_formatted fails short colorize level line s)
  unfolding write_formatted
  write_formatted-shown true level n line s e =
      and_then-Writes _ _ (prefix-Writes n s level e)
        (line-Writes n line colour_end s _ e (all-Writes n colour_end s.stream e))
  write_formatted-shown false level n line s e =
      subst (λ x. Writes n x (write_formatted fails short false level line s))
        (append-nil (full_line line)) (line-Writes n line [] s skip e (skip-Writes n))

  module _ {D T : Type 0} (snprintf : D → Option Printed) (hash : T → ℕ) where
    -- A write of a record to an open stream, whatever calls of the system fail. The sink colours if
    -- its mode is to do so always, or by itself and the stream is a terminal. If the formatter returns a
    -- line, the write appends to the stream's file the line with one newline at its end, between the
    -- level's escape sequence and the reset if the sink colours, and returns; or it throws, having
    -- appended a part of that text from its start. No other file changes. If the formatter throws, the
    -- write throws and nothing changes.
    pub write-shown :
        (isatty : Bytes → Bool) (r : LogRecord D T) (n : Bytes) (s : ConsoleSink)
        → s.stream ≡ some n
        → ((line : Bytes)
            → format snprintf hash r s.formatter.pattern ≡ some (ok line)
            → (colorize : Bool) × Colours (isatty n) s.color_mode colorize
              × Writes n (shown colorize r.level line) (write fails short snprintf hash isatty r s))
          × (format snprintf hash r s.formatter.pattern ≡ some runtime_error
              → (d : Disk) → write fails short snprintf hash isatty r s d ≡ (false, d))
    unfolding write format_record
    write-shown isatty r n s e = (
      λ line f. (
        should_colorize isatty s,
        should_colorize-Colours isatty s n s.color_mode e refl,
        λ d.
            rw (f, format_record, write)
              (write_formatted-shown (should_colorize isatty s) r.level n line s e d),
      ),
      λ f d. rw (f, format_record, write),
    )
