-- ===== src/Async/Played.antt =====
-- A file sink behind an asynchronous sink: what its calls leave in the file.
use sim_logger.Prelude.{
  ℕ, ◌+◌, ◌≤◌, arith, if◌then◌else◌, Bool, true, false, not, List, [], ◌∷◌, ◌++◌, Option, none,
  some, ◌≡◌, ◌≢◌, refl, sym, ap, ◌∙◌, subst, ◌⊎◌, Option-cases, inl, inr, append-nil, append_assoc,
  Bytes,
}
use sim_logger.LogRecord.{LogRecord}
use sim_logger.Formatter.{Printed, PatternFormatter}
use sim_logger.Disk.{Disk, get, text_of}
use sim_logger.FileSink.{FileSink, format_record, flush_locked, write, write_line}
use sim_logger.FileSink.Append.{full_line, LineWritten, write_line-LineWritten}
use sim_logger.RotatingSink.Shift.{flush_locked-files}
use sim_logger.Async.{u64_mod, AsyncSink, SinkCall, create, request_stop_once, finished}
use sim_logger.Async
use sim_logger.Async.Books.{delivered}
use sim_logger.Async.Failures.{failures}

module _ {D T : Type 0} (snprintf : D → Option Printed) (hash : T → ℕ) where
  -- The bytes that records leave in a file, and the number of the writes that threw: each line with its
  -- newline, or a part of it from its start where its write threw; nothing where the formatter did.
  pub data Lines (formatter : PatternFormatter) : List (LogRecord D T) → Bytes → ℕ → Type 0 where
    nothing : Lines formatter [] [] 0
    whole :
        {r : LogRecord D T} {rs : List (LogRecord D T)} {line t : Bytes} {lost : ℕ}
        → format_record snprintf hash formatter r ≡ some line
        → Lines formatter rs t lost
        → Lines formatter (r ∷ rs) (full_line line ++ t) lost
    part :
        {r : LogRecord D T} {rs : List (LogRecord D T)} {line t : Bytes} {lost : ℕ}
        (added missing : Bytes)
        → format_record snprintf hash formatter r ≡ some line
        → added ++ missing ≡ full_line line
        → Lines formatter rs t lost
        → Lines formatter (r ∷ rs) (added ++ t) (lost + 1)
    unshown :
        {r : LogRecord D T} {rs : List (LogRecord D T)} {t : Bytes} {lost : ℕ}
        → format_record snprintf hash formatter r ≡ none
        → Lines formatter rs t lost
        → Lines formatter (r ∷ rs) t (lost + 1)

  module _ (fails : ℕ → Bool) (short : ℕ → ℕ) where
    -- A call of the wrapped file sink: whether it returns, and what it leaves.
    unfoldable pub answer : SinkCall (LogRecord D T) → FileSink → Disk → Bool × FileSink × Disk
    answer (Async.write r) f d = write snprintf hash fails short r f d
    answer Async.flush f d = let (fine, d') = flush_locked fails short f d in (fine, f, d')

    -- The sink and the directory after the calls, whichever of them throw.
    unfoldable pub play : List (SinkCall (LogRecord D T)) → FileSink → Disk → FileSink × Disk
    unfolding answer
    play [] f d = (f, d)
    play (c ∷ cs) f d = let (fine, f', d') = answer c f d in play cs f' d'

    -- Whether a call throws after these calls
    unfoldable pub file_throws :
        FileSink → Disk → List (SinkCall (LogRecord D T)) → SinkCall (LogRecord D T) → Bool
    unfolding play
    file_throws f d cs c = let (f', d') = play cs f d in not (answer c f' d').0

    -- What calls leave of the directory `d`, of which `failed` threw.
    pub record Filed (n : Bytes) (formatter : PatternFormatter) (rs : List (LogRecord D T))
        (failed : ℕ) (d d' : Disk) : Type 0 where
      pub added : Bytes
      pub lost : ℕ
      pub lines : Lines formatter rs added lost
      pub few : lost ≤ failed
      pub grown : text_of n d'.files ≡ text_of n d.files ++ added
      pub others : (m : Bytes) → n ≢ m → get m d'.files ≡ get m d.files

    flush-Filed :
        {n : Bytes} {formatter : PatternFormatter} {rs : List (LogRecord D T)} {failed : ℕ}
        {d d1 d' : Disk} (threw : Bool)
        → d1.files ≡ d.files
        → Filed n formatter rs failed d1 d'
        → Filed n formatter rs (if threw then failed + 1 else failed) d d'
    flush-Filed {n = n} threw e p = record {
      added = p.added;
      lost = p.lost;
      lines = p.lines;
      few = ground (arith, p.few);
      grown = p.grown ∙ ap (λ fs. text_of n fs ++ p.added) e;
      others = λ m h. p.others m h ∙ ap (get m) e;
    }

    line-Filed :
        {n : Bytes} {formatter : PatternFormatter} {rs : List (LogRecord D T)} {failed : ℕ}
        {d d' : Disk} (r : LogRecord D T) (line : Bytes) (f : FileSink) (o : Bool × FileSink × Disk)
        → format_record snprintf hash formatter r ≡ some line
        → LineWritten n (full_line line) f d o
        → Filed n formatter rs failed o.2 d'
        → Filed n formatter (r ∷ rs) (if not o.0 then failed + 1 else failed) d d'
    line-Filed {n = n} {formatter = formatter} {rs = rs} {d = d} r line f (false, f1, d1) shown w
          p =
        record {
          added = w.appended.added ++ p.added;
          lost = p.lost + 1;
          lines = part w.appended.added w.appended.missing shown w.appended.split p.lines;
          few = omega (arith, p.few);
          grown =
              p.grown
              ∙ ap (λ t. t ++ p.added) w.appended.grown
              ∙ append_assoc (text_of n d.files) w.appended.added p.added;
          others = λ m h. p.others m h ∙ w.appended.others m h;
        }
    line-Filed {n = n} {formatter = formatter} {rs = rs} {d = d} r line f (true, f1, d1) shown w p =
        record {
          added = w.appended.added ++ p.added;
          lost = p.lost;
          lines =
              subst (λ x. Lines formatter (r ∷ rs) (x ++ p.added) p.lost)
                (sym w.appended.split
                  ∙ ap (λ x. w.appended.added ++ x) (w.appended.complete refl)
                  ∙ append-nil w.appended.added)
                (whole shown p.lines);
          few = p.few;
          grown =
              p.grown
              ∙ ap (λ t. t ++ p.added) w.appended.grown
              ∙ append_assoc (text_of n d.files) w.appended.added p.added;
          others = λ m h. p.others m h ∙ w.appended.others m h;
        }

    unshown-Filed :
        {n : Bytes} {formatter : PatternFormatter} {rs : List (LogRecord D T)} {failed : ℕ}
        {d d' : Disk} (r : LogRecord D T)
        → format_record snprintf hash formatter r ≡ none
        → Filed n formatter rs failed d d'
        → Filed n formatter (r ∷ rs) (failed + 1) d d'
    unshown-Filed r e p = record {
      added = p.added;
      lost = p.lost + 1;
      lines = unshown e p.lines;
      few = omega (arith, p.few);
      grown = p.grown;
      others = p.others;
    }

    write_cases :
        (r : LogRecord D T) (f : FileSink) (d : Disk)
        → ((format_record snprintf hash f.formatter r ≡ none)
            × (write snprintf hash fails short r f d ≡ (false, f, d)))
          ⊎ ((line : Bytes) × (format_record snprintf hash f.formatter r ≡ some line)
              × (write snprintf hash fails short r f d ≡ write_line fails short line f d))
    unfolding write
    write_cases r f d = elim (Option-cases (format_record snprintf hash f.formatter r)) [
      | inl e ↦ inl (e, rw (e, write))
      | inr (line, e) ↦ inr (line, e, rw (e, write))
    ]

    -- The calls of `before` have left the sink as `f` and the directory as `d`.
    module _ (f0 : FileSink) (d0 : Disk) where
      play-snoc :
          (before : List (SinkCall (LogRecord D T))) (c : SinkCall (LogRecord D T)) (f1 : FileSink)
          (d1 : Disk)
          → let (f, d) = play before f1 d1 in
            let (fine, f', d') = answer c f d in play (before ++ (c ∷ [])) f1 d1 ≡ (f', d')
      unfolding play
      play-snoc [] c f1 d1 = refl
      play-snoc (b ∷ before) c f1 d1 = play-snoc before c (answer b f1 d1).1 (answer b f1 d1).2

      played :
          (before : List (SinkCall (LogRecord D T))) (c : SinkCall (LogRecord D T)) (f : FileSink)
          (d : Disk) (o : Bool × FileSink × Disk)
          → play before f0 d0 ≡ (f, d)
          → answer c f d ≡ o
          → play (before ++ (c ∷ [])) f0 d0 ≡ (o.1, o.2)
      played before c f d o at e =
          play-snoc before c f0 d0
          ∙ ap (λ w. let (fine, f', d') = answer c w.0 w.1 in (f', d')) at
          ∙ ap (λ x. (x.1, x.2)) e

      threw :
          (before : List (SinkCall (LogRecord D T))) (c : SinkCall (LogRecord D T)) (f : FileSink)
          (d : Disk)
          → play before f0 d0 ≡ (f, d)
          → file_throws f0 d0 before c ≡ not (answer c f d).0
      unfolding file_throws
      threw before c f d e = ap (λ w. not (answer c w.0 w.1).0) e

      pub play-Filed :
          (cs before : List (SinkCall (LogRecord D T))) (n : Bytes) (formatter : PatternFormatter)
          (f : FileSink) (d : Disk)
          → play before f0 d0 ≡ (f, d)
          → f.file ≡ some n
          → f.formatter ≡ formatter
          → Filed n formatter
              (delivered cs)
              (failures (file_throws f0 d0) before cs)
              d
              (play cs f d).1
      unfolding play answer failures
      play-Filed [] before n formatter f d at here shape = record {
        added = [];
        lost = 0;
        lines = nothing;
        few = omega arith;
        grown = sym (append-nil (text_of n d.files));
        others = λ m h. refl;
      }
      play-Filed (Async.flush ∷ cs) before n formatter f d at here shape =
          let (fine, d1) = flush_locked fails short f d in
          rw (threw before Async.flush f d at) (
            flush-Filed (not fine) (flush_locked-files fails short f d) (
              play-Filed cs (before ++ (Async.flush ∷ [])) n formatter f d1
                (played before Async.flush f d (fine, f, d1) at refl) here shape))
      play-Filed (Async.write r ∷ cs) before n formatter f d at here shape =
          let before1 = before ++ (Async.write r ∷ []) in
          let failed = failures (file_throws f0 d0) before1 cs in
          let goal : Bool × FileSink × Disk → Type 0 = λ o.
            Filed n formatter (r ∷ delivered cs) (if not o.0 then failed + 1 else failed) d
              (play cs o.1 o.2).1 in
          rw (threw before (Async.write r) f d at) (elim (write_cases r f d) [
            | inl (e, same) ↦ subst goal (sym same) (
                unshown-Filed r (rw shape at e) (
                  play-Filed cs before1 n formatter f d
                    (played before (Async.write r) f d (false, f, d) at same) here shape))
            | inr (line, e, same) ↦
                let w = write_line-LineWritten fails short n line f d here in
                let (b, f1, d1) = write_line fails short line f d in
                subst goal (sym same) (
                  line-Filed r line f (b, f1, d1) (rw shape at e) w
                    (play-Filed cs before1 n formatter f1 d1
                      (played before (Async.write r) f d (b, f1, d1) at same)
                      (ap (λ g. g.file) w.same ∙ here) (ap (λ g. g.formatter) w.same ∙ shape)))
          ])
