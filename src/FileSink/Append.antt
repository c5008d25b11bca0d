-- ===== src/FileSink/Append.antt =====
-- What one write of a line does to the file and to the count of bytes, whatever call fails.
use sim_logger.Prelude.{
  ℕ, ◌+◌, ◌%◌, ◌^◌, ◌≤◌, Bool, true, false, [], ◌∷◌, ◌++◌, some, ==_iff, ◌≡◌, ◌≢◌, refl, sym, ap,
  ◌∙◌, subst, inl, inr, arith, Bool-cases, if◌then◌else◌, length, length-append, take, drop,
  take-append-drop, length-drop, eq_nil_of_length, append_assoc, append-nil, Bytes,
}
use sim_logger.Disk.{Disk, get, text_of, fwrite, written_at}
use sim_logger.Disk.Files.{get-put_ne, text_of-put_self}
use sim_logger.FileSink.{FileSink, add_u64, ends_line, write_all_or_throw, write_line}

-- The line as it should stand in the file.
abbrev pub full_line : Bytes → Bytes
full_line line = if ends_line line then line else line ++ (10 ∷ [])

-- A text was appended to the file `n`, in whole or up to a point; no other file has changed.
pub record Appended (n text : Bytes) (d : Disk) (whole : Bool) (d' : Disk) : Type 0 where
  pub added : Bytes
  pub missing : Bytes
  pub split : added ++ missing ≡ text
  pub complete : whole ≡ true → missing ≡ []
  pub grown : text_of n d'.files ≡ text_of n d.files ++ added
  pub others : (m : Bytes) → n ≢ m → get m d'.files ≡ get m d.files

-- The text of a line was written through the sink.
pub record LineWritten (n text : Bytes) (s : FileSink) (d : Disk) (out : Bool × FileSink × Disk)
    : Type 0 where
  pub appended : Appended n text d out.0 out.2
  pub same : out.1 ≡ record s { bytes_written = out.1.bytes_written }
  pub counted : out.0 ≡ true → out.1.bytes_written ≡ (s.bytes_written + length text) % 2 ^ 64
  pub uncounted : out.1.bytes_written ≤ s.bytes_written + length appended.added

-- Two writes, one after the other, to one file.
pub Appended-trans :
    {n x y : Bytes} {d d1 d2 : Disk} {b c : Bool}
    → Appended n x d b d1
    → b ≡ true
    → Appended n y d1 c d2
    → Appended n (x ++ y) d c d2
Appended-trans {n = n} {x = x} {y = y} {d = d} {d1 = d1} {d2 = d2} a whole z =
    let first : a.added ≡ x =
      sym (append-nil a.added) ∙ ap (λ m. a.added ++ m) (sym (a.complete whole)) ∙ a.split in
    record {
      added = x ++ z.added;
      missing = z.missing;
      split = append_assoc x z.added z.missing ∙ ap (λ t. x ++ t) z.split;
      complete = z.complete;
      grown =
          z.grown
          ∙ ap (λ t. t ++ z.added) (a.grown ∙ ap (λ t. text_of n d.files ++ t) first)
          ∙ append_assoc (text_of n d.files) x z.added;
      others = λ m h. z.others m h ∙ a.others m h;
    }

-- A part of the first text is a part of both.
pub Appended-part :
    {n x : Bytes} {d d1 : Disk} (y : Bytes)
    → Appended n x d false d1
    → Appended n (x ++ y) d false d1
Appended-part {x = x} y a = record {
  added = a.added;
  missing = a.missing ++ y;
  split = sym (append_assoc a.added a.missing y) ∙ ap (λ t. t ++ y) a.split;
  complete = λ e. cc;
  grown = a.grown;
  others = a.others;
}

added_all : {n x : Bytes} {d d1 : Disk} (a : Appended n x d true d1) → length a.added ≡ length x
added_all {x = x} a =
    omega (arith, length-append a.added a.missing, ap length a.split, ap length (a.complete refl))

LineWritten-broken :
    {n text : Bytes} (s : FileSink) {d d1 : Disk}
    → Appended n text d false d1
    → LineWritten n text s d (false, s, d1)
LineWritten-broken s a = record {
  appended = a;
  same = refl;
  counted = λ e. cc;
  uncounted = omega arith;
}

LineWritten-whole :
    {n text : Bytes} (s : FileSink) {d d1 : Disk} (k : ℕ)
    → Appended n text d true d1
    → k ≡ (s.bytes_written + length text) % 2 ^ 64
    → LineWritten n text s d (true, record s { bytes_written = k }, d1)
LineWritten-whole s k a e = record {
  appended = a;
  same = refl;
  counted = λ _. e;
  uncounted = omega (arith, e, added_all a);
}

-- The line was written, and its newline was not.
LineWritten-unended :
    {n line : Bytes} (s : FileSink) {d d1 d2 : Disk} (k : ℕ)
    → (a : Appended n line d true d1) → (z : Appended n (10 ∷ []) d1 false d2)
    → k ≡ (s.bytes_written + length line) % 2 ^ 64
    → LineWritten n (line ++ (10 ∷ [])) s d (false, record s { bytes_written = k }, d2)
unfolding Appended-trans
LineWritten-unended {line = line} s k a z e = record {
  appended = Appended-trans a refl z;
  same = refl;
  counted = λ f. cc;
  uncounted = omega (arith, e, length-append line z.added);
}

module _ (fails : ℕ → Bool) (short : ℕ → ℕ) where
  pub fwrite-Appended :
      (n text : Bytes) (d : Disk)
      → Appended n text d (fwrite fails short n text d).0 (fwrite fails short n text d).1
  unfolding fwrite
  fwrite-Appended n text d =
      let k = written_at fails short d.calls (length text) in
      record {
        added = take k text;
        missing = drop k text;
        split = take-append-drop k text;
        complete = λ e.
            eq_nil_of_length (drop k text)
              (omega (arith, length-drop k text, (==_iff k (length text)).0 e));
        grown = text_of-put_self n (text_of n d.files ++ take k text) d.files;
        others = λ m h. get-put_ne m n (text_of n d.files ++ take k text) d.files h;
      }

  -- `write_line` on the stream of the file `n`.
  on_file : Bytes → Bytes → FileSink → Disk → Bool × FileSink × Disk
  on_file n line s d =
      let (whole, d1) = fwrite fails short n line d in
      let counted = record s { bytes_written = add_u64 s.bytes_written (length line) } in
      if whole
      then (if ends_line line
          then (true, counted, d1)
          else let (ended, d2) = fwrite fails short n (10 ∷ []) d1 in
            if ended
            then (true, record counted { bytes_written = add_u64 counted.bytes_written 1 }, d2)
            else (false, counted, d2))
      else (false, s, d1)

  write_line-on_file :
      (n line : Bytes) (s : FileSink) (d : Disk)
      → s.file ≡ some n
      → write_line fails short line s d ≡ on_file n line s d
  unfolding write_line write_all_or_throw on_file
  write_line-on_file n line s d e = rw (e, write_all_or_throw)

  full_newline : (line : Bytes) → ends_line line ≡ true → full_line line ≡ line
  full_newline line e = rw e

  full_without : (line : Bytes) → ends_line line ≡ false → full_line line ≡ line ++ (10 ∷ [])
  full_without line e = rw e

  pub fwrite-outcome :
      (n text : Bytes) (d : Disk) (b : Bool)
      → (fwrite fails short n text d).0 ≡ b
      → Appended n text d b (fwrite fails short n text d).1
  fwrite-outcome n text d b e =
      subst (λ c. Appended n text d c (fwrite fails short n text d).1) e (fwrite-Appended n text d)

  on_file-LineWritten :
      (n line : Bytes) (s : FileSink) (d : Disk)
      → LineWritten n (full_line line) s d (on_file n line s d)
  unfolding on_file
  on_file-LineWritten n line s d = elim (Bool-cases (ends_line line)) [
    | inl y ↦ rw y (elim (Bool-cases (fwrite fails short n line d).0) [
      | inr broken ↦ rw broken (LineWritten-broken s (fwrite-outcome n line d false broken))
      | inl whole ↦ rw whole (
          LineWritten-whole s (add_u64 s.bytes_written (length line))
            (fwrite-outcome n line d true whole) refl)
    ])
    | inr m ↦ rw m (elim (Bool-cases (fwrite fails short n line d).0) [
      | inr broken ↦
          rw broken
            (LineWritten-broken s (Appended-part (10 ∷ []) (fwrite-outcome n line d false broken)))
      | inl whole ↦
          let a = fwrite-outcome n line d true whole in
          let d1 = (fwrite fails short n line d).1 in
          elim (Bool-cases (fwrite fails short n (10 ∷ []) d1).0) [
            | inl ended ↦
                rw (whole, ended)
                  (LineWritten-whole s _
                    (Appended-trans a refl (fwrite-outcome n (10 ∷ []) d1 true ended))
                    (omega (arith, length-append line (10 ∷ []))))
            | inr unended ↦
                rw (whole, unended)
                  (LineWritten-unended s _ a (fwrite-outcome n (10 ∷ []) d1 false unended) refl)
          ]
    ])
  ]

  pub write_line-LineWritten :
      (n line : Bytes) (s : FileSink) (d : Disk)
      → s.file ≡ some n
      → LineWritten n (full_line line) s d (write_line fails short line s d)
  write_line-LineWritten n line s d e =
      subst (LineWritten n (full_line line) s d) (sym (write_line-on_file n line s d e))
        (on_file-LineWritten n line s d)
