-- ===== src/RotatingSink/Bounded.antt =====
-- The base file stays below the limit, but for a line that alone is too long.
use sim_logger.Prelude.{
  ℕ, ◌+◌, ◌^◌, ◌<◌, Bool, true, false, [], ◌∷◌, ◌++◌, some, ◌≡◌, ◌⊎◌, inl, inr, refl, sym, ap, ◌∙◌,
  subst, arith, Bool-cases, if◌then◌else◌, leb, length, length-append, append-nil, Bytes,
}
use sim_logger.Disk.{Disk, text_of}
use sim_logger.FileSink.{ends_line}
use sim_logger.FileSink.Append.{full_line, write_line-LineWritten}
use sim_logger.RotatingSink.{RotatingFileSink, projected, rotate, append, write_formatted}
use sim_logger.RotatingSink.Rotate.{IsSink, Rotates, rotate-Rotates}

-- The stream is open on the base file, and the count of bytes is its size.
pub record IsAccurate (s : RotatingFileSink) (d : Disk) : Type 0 where
  pub stream : s.base.file ≡ some s.base_path
  pub sized : s.base.bytes_written ≡ length (text_of s.base_path d.files)

length_full :
    (line : Bytes) → length (full_line line) ≡ length line + (if ends_line line then 0 else 1)
length_full line = elim (Bool-cases (ends_line line)) [
  | inl e ↦ rw e (omega arith)
  | inr e ↦ rw e (omega (arith, length-append line (10 ∷ [])))
]

projected_size :
    (s : RotatingFileSink) (line : Bytes)
    → s.base.bytes_written + length (full_line line) < 2 ^ 64
    → projected s line ≡ s.base.bytes_written + length (full_line line)
unfolding projected
projected_size s line small = omega (arith, small, length_full line)

under_limit :
    (max : ℕ) (s : RotatingFileSink) (line : Bytes)
    → leb max (projected s line) ≡ false
    → projected s line < max
under_limit max s line e = ground (arith, e)

module _ (fails : ℕ → Bool) (short : ℕ → ℕ) (unseen : ℕ → Bytes → Bool) where
  -- Where the line stands when its write returned.
  record Placed (line : Bytes) (s : RotatingFileSink) (d : Disk)
      (out : Bool × RotatingFileSink × Disk) : Type 0 where
    accurate : IsAccurate out.1 out.2
    text : text_of s.base_path out.2.files ≡ text_of s.base_path d.files ++ full_line line

  append-Placed :
      (line : Bytes) (s : RotatingFileSink) (d : Disk)
      → IsAccurate s d
      → length (text_of s.base_path d.files) + length (full_line line) < 2 ^ 64
      → (append fails short line s d).0 ≡ true
      → Placed line s d (append fails short line s d)
  unfolding append
  append-Placed line s d ok small returned =
      let w = write_line-LineWritten fails short s.base_path line s.base d ok.stream in
      let all : w.appended.added ≡ full_line line =
        sym (append-nil w.appended.added)
        ∙ ap (λ m. w.appended.added ++ m) (sym (w.appended.complete returned))
        ∙ w.appended.split in
      let text = w.appended.grown ∙ ap (λ t. text_of s.base_path d.files ++ t) all in
      record {
        accurate = record {
          stream = ap (λ f. f.file) w.same ∙ ok.stream;
          sized =
              w.counted returned
              ∙ omega (
                arith,
                small,
                ok.sized,
                ap length text,
                length-append (text_of s.base_path d.files) (full_line line),
              );
        };
        text = text;
      }

  -- What the bound says of the files behind a write.
  abbrev pub IsBounded : RotatingFileSink → Bytes → Bool × RotatingFileSink × Disk → Type 0
  IsBounded s line out =
      IsAccurate out.1 out.2
      × ((length (text_of s.base_path out.2.files) < s.max_bytes)
          ⊎ (text_of s.base_path out.2.files ≡ full_line line))

  rotated_write :
      (line : Bytes) (s s1 : RotatingFileSink) (fs : Disk) (d1 : Disk)
      → Rotates fails short unseen s fs.files (true, s1, d1)
      → length (full_line line) < 2 ^ 64
      → (append fails short line s1 d1).0 ≡ true
      → IsBounded s line (append fails short line s1 d1)
  rotated_write line s s1 fs d1 r small returned =
      let (bare, fresh) = r.begun refl in
      let bare1 : text_of s1.base_path d1.files ≡ [] = ap (λ p. text_of p d1.files) r.path ∙ bare in
      let p =
        append-Placed line s1 d1
          (record {
            stream = r.ready refl ∙ ap some (sym r.path);
            sized = omega (arith, fresh, ap length bare1);
          })
          (omega (arith, small, ap length bare1)) returned in
      (
        p.accurate,
        inr (
            ap (λ b. text_of b (append fails short line s1 d1).2.files) (sym r.path)
            ∙ p.text
            ∙ ap (λ t. t ++ full_line line) bare1),
      )

  -- Let the count of bytes be the size of the base file, and the file with the line fit 64 bits of
  -- size. Whatever calls of the system fail, when a write returns the count is the size
  -- again, and the base file is smaller than the limit or holds just this line.
  pub write_formatted-IsBounded :
      (ts line : Bytes) (s : RotatingFileSink) (d : Disk)
      → IsSink s
      → IsAccurate s d
      → length (text_of s.base_path d.files) + length (full_line line) < 2 ^ 64
      → (write_formatted fails short unseen ts line s d).0 ≡ true
      → IsBounded s line (write_formatted fails short unseen ts line s d)
  unfolding write_formatted
  write_formatted-IsBounded ts line s d sink ok small returned =
      elim (Bool-cases (leb s.max_bytes (projected s line))) [
        | inr below ↦
            let p = append-Placed line s d ok small (rw below at returned) in
            rw below (
              p.accurate,
              inl (
                  omega (
                    arith,
                    under_limit s.max_bytes s line below,
                    projected_size s line (omega (arith, small, ok.sized)),
                    ok.sized,
                    ap length p.text,
                    length-append (text_of s.base_path d.files) (full_line line),
                  )),
            )
        | inl large ↦
            let r = rotate-Rotates fails short unseen ts s d sink in
            elim (Bool-cases (rotate fails short unseen ts s d).0) [
              | inr e ↦ cc (rw (large, e) at returned)
              | inl e ↦
                  rw (large, e)
                    (rotated_write line s (rotate fails short unseen ts s d).1 d
                      (rotate fails short unseen ts s d).2
                      (subst
                        (λ b. Rotates fails short unseen s d.files (
                          b,
                          (rotate fails short unseen ts s d).1,
                          (rotate fails short unseen ts s d).2,
                        ))
                        e r)
                      (omega (arith, small)) (rw (large, e) at returned))
            ]
      ]
