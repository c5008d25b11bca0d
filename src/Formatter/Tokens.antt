-- ===== src/Formatter/Tokens.antt =====
-- What the constructor's test for "{met}" guarantees.
use mathlib.Core.Option.{some-injective}
use sim_logger.Prelude.{
  ℕ, zero, suc, Bool, true, false, ◌&&◌, List, [], ◌∷◌, ◌++◌, Option, some, ◌≡◌, ◌≢◌, ◌⊎◌, refl,
  sym, ap, ◌∙◌, subst, inl, inr, if◌then◌else◌, ltb, Bool-cases, Option-cases, length, append_assoc,
  Bytes, codes, bytes_eq, bytes_eq_iff,
}
use sim_logger.LogRecord.{LogRecord}
use sim_logger.Formatter.{
  Printed, ok, format, all_token_chars, contains, emplace, extract_from, extract_tokens,
  PatternFormatter, new_formatter,
}
use sim_logger.Formatter.Shape.{Without, test_of_ne, until_close-close, until_close-Without}
use sim_logger.Formatter.Fields.{Field, IsPrintable, known}
use sim_logger.Formatter.Format.{Renders, finish, char, unclosed_brace, token, format-Renders}

contains-emplace :
    (set : List Bytes) (t s : Bytes)
    → contains (emplace set t) s ≡ true
    → (t ≡ s) ⊎ (contains set s ≡ true)
unfolding emplace contains
contains-emplace set t s e = elim (Bool-cases (contains set t)) [
  | inl y ↦ inr (rw y at e)
  | inr n ↦ elim (Bool-cases (bytes_eq t s)) [
    | inl y ↦ inl ((bytes_eq_iff t s).0 y)
    | inr m ↦ inr (rw (n, m) at e)
  ]
]

-- The conditional that `extract_tokens` puts around `emplace`.
contains_if :
    (set : List Bytes) (t s : Bytes) (b : Bool)
    → contains (if b then emplace set t else set) s ≡ true
    → (t ≡ s) ⊎ (contains set s ≡ true)
contains_if set t s true e = contains-emplace set t s e
contains_if set t s false e = inr e

apart : (s : Bytes) → bytes_eq s (codes "met") ≡ false → s ≢ codes "met"
apart s n e = cc ((bytes_eq_iff s (codes "met")).1 e)

known_met : (t : Bytes) → t ≡ codes "met" → known t ≢ false
unfolding bytes_eq
known_met t e x = cc (ap known e)

checked :
    (pattern : Bytes) (f : PatternFormatter)
    → new_formatter pattern true ≡ some (some f)
    → (set : List Bytes) × (extract_tokens pattern ≡ some set)
      × (contains set (codes "met") ≡ true)
      × (f.pattern ≡ pattern)
unfolding new_formatter
checked pattern f e = elim (Option-cases (extract_tokens pattern)) [
  | inl missing ↦ cc (rw (missing, new_formatter) at e)
  | inr (set, found) ↦ elim (Bool-cases (contains set (codes "met"))) [
    | inl y ↦ (
      set,
      found,
      y,
      sym (
          ap (λ g. g.pattern)
            (some-injective _ f (some-injective _ (some f) (rw (found, y, new_formatter) at e)))),
    )
    | inr n ↦ cc (rw (found, n, new_formatter) at e)
  ]
]

module _ {D T : Type 0} (snprintf : D → Option Printed) (hash : T → ℕ) (r : LogRecord D T) where
  -- The elapsed time stands in the text.
  pub record ShowsMet (o : Bytes) : Type 0 where
    pub before : Bytes
    pub text : Printed
    pub after : Bytes
    pub printed : snprintf r.met ≡ some text
    pub split : o ≡ before ++ (text.text ++ after)

  ShowsMet-prepend : (s o : Bytes) → ShowsMet o → ShowsMet (s ++ o)
  ShowsMet-prepend s o m = record {
    before = s ++ m.before;
    text = m.text;
    after = m.after;
    printed = m.printed;
    split = ap (λ l. s ++ l) m.split ∙ sym (append_assoc s m.before (m.text.text ++ m.after));
  }

  met-Field :
      {t s : Bytes}
      → Field snprintf hash r t s
      → t ≡ codes "met"
      → (p : Printed) × (snprintf r.met ≡ some p) × (p.text ≡ s)
  unfolding bytes_eq
  met-Field Field.level e = absurd (apart (codes "level") refl e)
  met-Field (Field.sim x) e = absurd (apart (codes "sim") refl e)
  met-Field (Field.met {p = p} x) e = (p, x, refl)
  met-Field (Field.wall_ns x) e = absurd (apart (codes "wall_ns") refl e)
  met-Field (Field.thread x) e = absurd (apart (codes "thread") refl e)
  met-Field Field.file e = absurd (apart (codes "file") refl e)
  met-Field (Field.line x) e = absurd (apart (codes "line") refl e)
  met-Field Field.function e = absurd (apart (codes "function") refl e)
  met-Field Field.logger e = absurd (apart (codes "logger") refl e)
  met-Field Field.msg e = absurd (apart (codes "msg") refl e)
  met-Field (Field.unknown {t = t} x) e = absurd (known_met t e x)

  extract_char :
      (fuel c : ℕ) (p : Bytes) (set : List Bytes)
      → c ≢ 123
      → extract_from (suc fuel) (c ∷ p) set ≡ extract_from fuel p set
  unfolding extract_from
  extract_char fuel c p set h = rw (test_of_ne c 123 h, extract_from)

  extract_tail :
      (fuel : ℕ) (p : Bytes) (set set' : List Bytes)
      → Without 125 p
      → extract_from (suc fuel) (123 ∷ p) set ≡ some set'
      → set ≡ set'
  unfolding extract_from
  extract_tail fuel p set set' w e =
      some-injective set set' (sym (rw (until_close-Without p w, extract_from)) ∙ e)

  extract_token :
      (fuel : ℕ) (t p : Bytes) (set : List Bytes)
      → Without 125 t
      → extract_from (suc fuel) (123 ∷ t ++ (125 ∷ p)) set
        ≡ extract_from fuel p (if ltb 0 (length t) && all_token_chars t then emplace set t else set)
  unfolding extract_from
  extract_token fuel t p set w = rw (until_close-close t p w, extract_from)

  -- A token that was found is rendered.
  tokens_rendered :
      {p o : Bytes}
      → Renders snprintf hash r p o
      → (fuel : ℕ) (set set' : List Bytes) → extract_from fuel p set ≡ some set'
      → contains set' (codes "met") ≡ true
      → (contains set (codes "met") ≡ true) ⊎ ShowsMet o
  unfolding extract_from
  tokens_rendered d zero set set' e found = cc
  tokens_rendered finish (suc fuel) set set' e found =
      inl (subst (λ s. contains s (codes "met") ≡ true) (sym (some-injective set set' e)) found)
  tokens_rendered (char {c = c} {p = p} {o = o} h d) (suc fuel) set set' e found =
      elim (tokens_rendered d fuel set set' (sym (extract_char fuel c p set h) ∙ e) found) [
        | inl before ↦ inl before
        | inr m ↦ inr (ShowsMet-prepend (c ∷ []) o m)
      ]
  tokens_rendered (unclosed_brace {p = p} w) (suc fuel) set set' e found =
      inl (
        subst (λ s. contains s (codes "met") ≡ true) (sym (extract_tail fuel p set set' w e)) found)
  tokens_rendered (token {t = t} {s = s} {p = p} {o = o} w f d) (suc fuel) set set' e found =
      elim (tokens_rendered d fuel
        (if ltb 0 (length t) && all_token_chars t then emplace set t else set) set'
        (sym (extract_token fuel t p set w) ∙ e) found) [
          | inr m ↦ inr (ShowsMet-prepend s o m)
          | inl now ↦
              elim (contains_if set t (codes "met") (ltb 0 (length t) && all_token_chars t) now) [
                | inr before ↦ inl before
                | inl met ↦ inr (record {
                  before = [];
                  text = (met-Field f met).0;
                  after = o;
                  printed = (met-Field f met).1;
                  split = ap (λ x. x ++ o) (sym (met-Field f met).2);
                })
              ]
        ]

  -- A formatter that is constructed with the requirement formats every printable record to a text in
  -- which the record's mission elapsed time stands, as `snprintf` prints it.
  pub required_met_shown :
      (pattern : Bytes) (f : PatternFormatter)
      → IsPrintable snprintf hash r
      → new_formatter pattern true ≡ some (some f)
      → (o : Bytes) × (format snprintf hash r f.pattern ≡ some (ok o)) × ShowsMet o
  unfolding extract_tokens contains
  required_met_shown pattern f ready e =
      let (set, found, has, same) = checked pattern f e in
      let (o, ran, d) = format-Renders snprintf hash r pattern ready in
      (
        o,
        rw same ran,
        elim (tokens_rendered d (suc (length pattern)) [] set found has) [
          | inl none_yet ↦ cc
          | inr m ↦ m
        ],
      )
