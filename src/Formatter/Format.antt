-- ===== src/Formatter/Format.antt =====
-- What `format` returns.
use sim_logger.Prelude.{
  ℕ, zero, suc, ◌<◌, false, [], ◌∷◌, ◌++◌, Option, none, some, ◌≡◌, ◌≢◌, refl, sym, ap, ◌∙◌, subst,
  inl, inr, ◌==◌, ==_iff, Bool-cases, arith, length, length-append, append-nil, append_assoc, Bytes,
}
use sim_logger.LogRecord.{LogRecord}
use sim_logger.Formatter.{Printed, ok, until_close, format_from, format}
use sim_logger.Formatter.Shape.{Without, Closing, unclosed, closed, ne_of_test, until_close-Closing}
use sim_logger.Formatter.Fields.{Field, IsPrintable, append_token-Field}

module _ {D T : Type 0} (snprintf : D → Option Printed) (hash : T → ℕ) (r : LogRecord D T) where
  -- The text that a pattern renders to: tokens in braces stand for their texts, all else for itself,
  -- also a brace that is never closed.
  pub data Renders : Bytes → Bytes → Type 0 where
    finish : Renders [] []
    char : {c : ℕ} {p o : Bytes} → c ≢ 123 → Renders p o → Renders (c ∷ p) (c ∷ o)
    unclosed_brace : {p : Bytes} → Without 125 p → Renders (123 ∷ p) (123 ∷ p)
    token :
        {t s p o : Bytes}
        → Without 125 t
        → Field snprintf hash r t s
        → Renders p o
        → Renders (123 ∷ t ++ (125 ∷ p)) (s ++ o)

  Rendered : ℕ → Bytes → Bytes → Type 0
  Rendered fuel p out =
      (o : Bytes) × (format_from snprintf hash r fuel p out ≡ some (ok (out ++ o))) × Renders p o

  one_char :
      (fuel c : ℕ) (p out : Bytes)
      → (c == 123) ≡ false
      → Rendered fuel p (out ++ (c ∷ []))
      → Rendered (suc fuel) (c ∷ p) out
  unfolding Rendered format_from
  one_char fuel c p out e (o, ran, d) = (
    c ∷ o,
    rw (e, format_from) (ran ∙ ap (λ l. some (ok l)) (append_assoc out (c ∷ []) o)),
    char (ne_of_test c 123 e) d,
  )

  one_brace :
      (ready : IsPrintable snprintf hash r) (fuel : ℕ) (p out : Bytes)
      (found : Option (Bytes × Bytes))
      → until_close p ≡ found
      → Closing p found
      → ((p' out' : Bytes) → length p' < length p → Rendered fuel p' out')
      → Rendered (suc fuel) (123 ∷ p) out
  unfolding Rendered format_from
  one_brace ready fuel p out none e (unclosed w) rest =
      (123 ∷ p, rw (e, format_from), unclosed_brace w)
  one_brace ready fuel p out (some _) e (closed t after split w) rest =
      let (s, wrote, f) = append_token-Field snprintf hash r ready out t in
      let (o, ran, d) =
        rest after (out ++ s) (omega (arith, ap length split, length-append t (125 ∷ after))) in
      (
        s ++ o,
        rw (e, wrote, format_from) (ran ∙ ap (λ l. some (ok l)) (append_assoc out s o)),
        subst (λ q. Renders (123 ∷ q) (s ++ o)) (sym split) (token w f d),
      )

  format_from-Rendered :
      (ready : IsPrintable snprintf hash r) (fuel : ℕ) (p out : Bytes)
      → length p < fuel
      → Rendered fuel p out
  unfolding Rendered format_from
  format_from-Rendered ready zero p out room = absurd (omega arith)
  format_from-Rendered ready (suc fuel) [] out room = ([], rw (append-nil out), finish)
  format_from-Rendered ready (suc fuel) (c ∷ p) out room = elim (Bool-cases (c == 123)) [
    | inr n ↦
        one_char fuel c p out n
          (format_from-Rendered ready fuel p (out ++ (c ∷ [])) (omega (arith, room)))
    | inl y ↦
        subst (λ x. Rendered (suc fuel) (x ∷ p) out) (sym ((==_iff c 123).0 y))
          (one_brace ready fuel p out (until_close p) refl (until_close-Closing p)
            (λ p' out' shorter.
              format_from-Rendered ready fuel p' out' (omega (arith, room, shorter))))
  ]

  -- On a printable record, whose times print to fewer than 64 characters and whose line number is
  -- one of 32 bits, `format` terminates without an exception for every pattern, and returns the text
  -- that the pattern renders to by the token grammar of the code: a token that the code does not
  -- know, `{sim_time}` and `{wall_time_ns}` of the guide among them, stays as it stands.
  pub format-Renders :
      (pattern : Bytes)
      → IsPrintable snprintf hash r
      → (o : Bytes) × (format snprintf hash r pattern ≡ some (ok o)) × Renders pattern o
  unfolding format Rendered
  format-Renders pattern ready =
      format_from-Rendered ready (suc (length pattern)) pattern [] (omega arith)
