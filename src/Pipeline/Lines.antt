-- ===== src/Pipeline/Lines.antt =====
-- What a log statement leaves in the files.
use sim_logger.Prelude.{
  ℕ, ◌+◌, ◌%◌, Bool, true, false, not, List, [], ◌∷◌, Option, some, ◌==◌, ==_iff, ◌≡◌, refl, sym,
  subst, Bool-cases, inl, inr, if◌then◌else◌, Bytes,
}
use sim_logger.Formatter.{Printed}
use sim_logger.Level.{Level, is_at_least}
use sim_logger.LogRecord.{LogRecord}
use sim_logger.Sink.{SinkPtr}
use sim_logger.Logger.{
  Logger, Heap, u64_mod, fetch, modify, effective_level, effective_sinks, effective_immediate_flush,
  emit_to, emit_all, log,
}
use sim_logger.Logger.Effective.{IsHierarchy, DecidesLevel, DecidesSinks, DecidesFlush, inherit_iff}
use sim_logger.Logger.Emit.{guard-is_at_least}
use sim_logger.Disk.{Disk}
use sim_logger.FileSink.{FileSink, format_record, write}
use sim_logger.FileSink.Append.{full_line, LineWritten, write_line-LineWritten}
use sim_logger.Pipeline.{Files, store, file_sinks}

module _ {D T : Type 0} (snprintf : D → Option Printed) (hash : T → ℕ) where
  -- The record can be shown by every sink, and the streams are open.
  pub record IsReady (r : LogRecord D T) (w : Files) : Type 0 where
    pub name : SinkPtr → Bytes
    pub line : SinkPtr → Bytes
    pub stream : (k : SinkPtr) → (w.sink k).file ≡ some (name k)
    pub shown : (k : SinkPtr) → format_record snprintf hash (w.sink k).formatter r ≡ some (line k)

-- Lines written through the sinks of a list one after the other, with the counter of failures: each
-- sink appends its line with its newline to its file, or a part of it when it throws.
pub data Appends (name line : SinkPtr → Bytes) : List SinkPtr → Files → ℕ → Files × ℕ → Type 0 where
  all_done : {w : Files} {n : ℕ} → Appends name line [] w n (w, n)
  appends :
      {k : SinkPtr} {ks : List SinkPtr} {w : Files} {n : ℕ} {end : Files × ℕ} (fine : Bool)
      (f : FileSink) (d : Disk)
      → LineWritten (name k) (full_line (line k)) (w.sink k) w.disk (fine, f, d)
      → Appends name line ks (store k f d w) (if fine then n else (n + 1) % u64_mod) end
      → Appends name line (k ∷ ks) w n end

if-not : {A : Type 0} (x y : A) (b : Bool) → (if not b then x else y) ≡ (if b then y else x)
if-not x y true = refl
if-not x y false = refl

module _ {D T : Type 0} (snprintf : D → Option Printed) (hash : T → ℕ) (fails : ℕ → Bool)
    (short : ℕ → ℕ) where
  write-LineWritten :
      (r : LogRecord D T) (n line : Bytes) (s : FileSink) (d : Disk)
      → s.file ≡ some n
      → format_record snprintf hash s.formatter r ≡ some line
      → LineWritten n (full_line line) s d (write snprintf hash fails short r s d)
  unfolding write
  write-LineWritten r n line s d here shown =
      rw (shown, write) (write_line-LineWritten fails short n line s d here)

  emit_to-file :
      (r : LogRecord D T) (k : SinkPtr) (w : Files) (o : Bool × FileSink × Disk)
      → write snprintf hash fails short r (w.sink k) w.disk ≡ o
      → emit_to (file_sinks snprintf hash fails short) false r k w ≡ (not o.0, store k o.1 o.2 w)
  unfolding emit_to
  emit_to-file r k w (true, f, d) e = rw e
  emit_to-file r k w (false, f, d) e = rw e

  -- Another sink keeps its stream and formatter, and so does the one that wrote.
  store-IsReady :
      (r : LogRecord D T) (k : SinkPtr) (f : FileSink) (d : Disk) (w : Files) (b : ℕ)
      → f ≡ record (w.sink k) { bytes_written = b }
      → (ok : IsReady snprintf hash r w) → (j : SinkPtr)
      → ((store k f d w).sink j).file ≡ some (ok.name j)
        × (format_record snprintf hash ((store k f d w).sink j).formatter r ≡ some (ok.line j))
  unfolding store
  store-IsReady r k f d w b same ok j =
      let stays : FileSink → Type 0 = λ g.
        (g.file ≡ some (ok.name j))
        × (format_record snprintf hash g.formatter r ≡ some (ok.line j)) in
      elim (Bool-cases (j == k)) [
        | inr other ↦ rw other (ok.stream j, ok.shown j)
        | inl it ↦ rw it (
            subst stays (sym same) (
              subst
                (λ i.
                  ((w.sink i).file ≡ some (ok.name j))
                  × (format_record snprintf hash (w.sink i).formatter r ≡ some (ok.line j)))
                ((==_iff j k).0 it) (ok.stream j, ok.shown j)))
      ]

  emit_all-Appends :
      (r : LogRecord D T) (ks : List SinkPtr) (w : Files) (n : ℕ) (ok : IsReady snprintf hash r w)
      → Appends ok.name ok.line ks w n
          (emit_all (file_sinks snprintf hash fails short) false r ks w n)
  unfolding emit_all
  emit_all-Appends r [] w n ok = all_done
  emit_all-Appends r (k ∷ ks) w n ok =
      let (fine, f, d) = write snprintf hash fails short r (w.sink k) w.disk in
      let l =
        write-LineWritten r (ok.name k) (ok.line k) (w.sink k) w.disk (ok.stream k) (ok.shown k) in
      let ready = store-IsReady r k f d w f.bytes_written l.same ok in
      let count = if fine then n else (n + 1) % u64_mod in
      rw (emit_to-file r k w (fine, f, d) refl, if-not ((n + 1) % u64_mod) n fine)
        (appends fine f d l (
          emit_all-Appends r ks (store k f d w) count (record {
            name = ok.name;
            line = ok.line;
            stream = λ j. (ready j).0;
            shown = λ j. (ready j).1;
          })))

  -- A log statement in a hierarchy, by the logger `l` whose effective settings are `v`, the sinks `ks`
  -- and no immediate flush, where all sinks are file sinks with open streams whose formatters give a
  -- line for the record, and whatever calls of the system fail. Below the level `v` nothing changes.
  -- Else the sinks append their lines one after the other, each the line with its newline or, when it
  -- throws, a part of that from its start, no other file changes, one sink's failure keeps no other
  -- from writing, and the logger counts the failures modulo 2 ^ 64.
  pub log-Appends :
      (h : Heap) (i : ℕ) (l : Logger) (v : Level) (ks : List SinkPtr) (level : Level)
      (r : LogRecord D T) (w : Files) (ok : IsReady snprintf hash r w)
      → IsHierarchy h
      → fetch h i ≡ some l
      → DecidesLevel h l v
      → DecidesSinks h l ks
      → DecidesFlush h l false
      → (is_at_least level v ≡ false
          → log (file_sinks snprintf hash fails short) h i l level r w ≡ some (h, w))
        × (is_at_least level v ≡ true
            → (out : Files × ℕ) × (log (file_sinks snprintf hash fails short) h i l level r w
                ≡ some (modify h i (λ l'. record l' { sink_failures_count = out.1 }), out.0))
              × Appends ok.name ok.line ks w l.sink_failures_count out)
  unfolding log is_at_least effective_level effective_sinks effective_immediate_flush
  log-Appends h i l v ks level r w ok tree here dv ds db =
      let ev = (inherit_iff _ _ _ h i l v tree here).1 dv in
      let es = (inherit_iff _ _ _ h i l ks tree here).1 ds in
      let eb = (inherit_iff _ _ _ h i l false tree here).1 db in
      (
        λ low. rw (ev, log, guard-is_at_least level v, low),
        λ high. (
          emit_all (file_sinks snprintf hash fails short) false r ks w l.sink_failures_count,
          rw (ev, es, eb, log, guard-is_at_least level v, high),
          emit_all-Appends r ks w l.sink_failures_count ok,
        ),
      )
