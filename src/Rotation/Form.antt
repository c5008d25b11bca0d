-- ===== src/Rotation/Form.antt =====
-- What the names are that `parse_rotation_suffix` takes for those of rotated files.
use mathlib.Core.Option.{some-injective}
use sim_logger.Prelude.{
  ℕ, ◌%◌, ◌^◌, ◌≤◌, true, [], ◌∷◌, ◌++◌, some, ◌≡◌, inl, inr, refl, sym, ap, ◌∙◌, subst, arith,
  ==_iff, ◌↔◌, Bool-cases, Option-cases, ltb, ◌==◌, length, length-append, length-drop, take, drop,
  get_elem?, Bytes, append_assoc, append-nil, take-append-drop,
}
use sim_logger.Formatter.Decimal.{value_onto, AllDigits}
use sim_logger.Rotation.{strip_prefix, all_digits, is_timestamp, parse_seq, parse_rotation_suffix}
use sim_logger.Rotation.Suffix.{IsStamp, parse_back, parse_digits-value, take_append}
use sim_logger.Rotation.Parts.{
  strip_prefix-some, all_digits-AllDigits, AllDigits-all_digits, parse_digits-AllDigits, split_at,
  get_elem?-append, drop_behind, and_both,
}

-- Eight digits, an underscore and six digits.
pub record IsDated (ts : Bytes) : Type 0 where
  pub day : Bytes
  pub time : Bytes
  pub form : ts ≡ day ++ (95 ∷ time)
  pub eight : length day ≡ 8
  pub six : length time ≡ 6
  pub day_digits : AllDigits day
  pub time_digits : AllDigits time

-- The base name, a dot and a timestamp, with the number 0; or these, a dot and digits, with their
-- value modulo 2 ^ 32.
pub data IsRotated (base n ts : Bytes) (seq : ℕ) : Type 0 where
  plain : IsDated ts → n ≡ base ++ (46 ∷ ts) → seq ≡ 0 → IsRotated base n ts seq
  numbered :
      (c : ℕ) (s : Bytes)
      → IsDated ts
      → n ≡ base ++ (46 ∷ ts ++ (46 ∷ c ∷ s))
      → AllDigits (c ∷ s)
      → seq ≡ value_onto 0 (c ∷ s) % 2 ^ 32
      → IsRotated base n ts seq

digits-IsDated :
    (ts : Bytes) (c : ℕ)
    → length ts ≡ 15
    → get_elem? ts 8 ≡ some c
    → all_digits (take 8 ts) ≡ true
    → (c == 95) ≡ true
    → all_digits (drop 9 ts) ≡ true
    → IsDated ts
digits-IsDated ts c size at days mark times =
    let form = split_at 8 c ts at in
    record {
      day = take 8 ts;
      time = drop 9 ts;
      form = form ∙ ap (λ k. take 8 ts ++ (k ∷ drop 9 ts)) ((==_iff c 95).0 mark);
      eight = omega (
        arith,
        size,
        ap length form,
        length-append (take 8 ts) (c ∷ drop 9 ts),
        length-drop 9 ts,
      );
      six = omega (arith, size, length-drop 9 ts);
      day_digits = all_digits-AllDigits (take 8 ts) days;
      time_digits = all_digits-AllDigits (drop 9 ts) times;
    }

is_timestamp-IsDated : (ts : Bytes) → length ts ≡ 15 → is_timestamp ts ≡ true → IsDated ts
unfolding is_timestamp
is_timestamp-IsDated ts size e =
    let (days, rest) = and_both (all_digits (take 8 ts)) _ e in
    elim (Option-cases (get_elem? ts 8)) [
      | inl out ↦ cc (rw out at rest)
      | inr (c, at) ↦
          let (mark, times) = and_both (c == 95) (all_digits (drop 9 ts)) (rw at at rest) in
          digits-IsDated ts c size at days mark times
    ]

IsDated-IsStamp : (ts : Bytes) → IsDated ts → IsStamp ts
unfolding is_timestamp
IsDated-IsStamp ts d = record {
  size = omega (arith, ap length d.form, length-append d.day (95 ∷ d.time), d.eight, d.six);
  shape =
      subst (λ t. is_timestamp t ≡ true) (sym d.form)
        (rw
          (
            take_append d.day (95 ∷ d.time) 8 d.eight,
            get_elem?-append d.day d.time 95 8 d.eight,
            drop_behind d.day d.time 95 8 d.eight,
            AllDigits-all_digits d.day d.day_digits,
            AllDigits-all_digits d.time d.time_digits,
          )
          refl);
}

-- The two forms of what follows a timestamp.
seq-IsRotated :
    (base n ts tail : Bytes) (seq : ℕ)
    → IsDated ts
    → n ≡ base ++ (46 ∷ ts ++ tail)
    → parse_seq tail ≡ some seq
    → IsRotated base n ts seq
unfolding parse_seq
seq-IsRotated base n ts [] seq d e p =
    plain d (e ∙ ap (λ t. base ++ (46 ∷ t)) (append-nil ts)) (sym (some-injective 0 seq p))
seq-IsRotated base n ts (c ∷ []) seq d e p = cc
seq-IsRotated base n ts (c ∷ x ∷ s) seq d e p = elim (Bool-cases (c == 46)) [
  | inr m ↦ cc (rw m at p)
  | inl y ↦
      let q = rw y at p in
      let chars = parse_digits-AllDigits (x ∷ s) 0 seq q in
      numbered x s d (e ∙ ap (λ k. base ++ (46 ∷ ts ++ (k ∷ x ∷ s))) ((==_iff c 46).0 y)) chars (
        some-injective seq (value_onto 0 (x ∷ s) % 2 ^ 32)
          (sym q ∙ parse_digits-value 0 (x ∷ s) chars))
]

-- What is read from the part behind the base name and the dot.
suffix-IsRotated :
    (base n rest ts : Bytes) (seq : ℕ)
    → n ≡ base ++ (46 ∷ rest)
    → strip_prefix (base ++ (46 ∷ [])) n ≡ some rest
    → parse_rotation_suffix n base ≡ some (ts, seq)
    → IsRotated base n ts seq
unfolding parse_rotation_suffix
suffix-IsRotated base n rest ts seq whole x e = elim (Bool-cases (ltb (length rest) 15)) [
  | inl short ↦ cc (rw (x, parse_rotation_suffix, short) at e)
  | inr long ↦ elim (Bool-cases (is_timestamp (take 15 rest))) [
    | inr bad ↦ cc (rw (x, parse_rotation_suffix, long, bad) at e)
    | inl good ↦ elim (Option-cases (parse_seq (drop 15 rest))) [
      | inl bad ↦ cc (rw (x, parse_rotation_suffix, long, good, bad) at e)
      | inr (q, at) ↦
          let same =
            some-injective (take 15 rest, q) (ts, seq)
              (rw (x, parse_rotation_suffix, long, good, at) at e) in
          let stamp : IsDated (take 15 rest) =
            is_timestamp-IsDated (take 15 rest) (first_bytes rest (ground (arith, long))) good in
          subst (λ x. IsRotated base n x.0 x.1) same
            (seq-IsRotated base n (take 15 rest) (drop 15 rest) q stamp
              (whole ∙ ap (λ t. base ++ (46 ∷ t)) (sym (take-append-drop 15 rest))) at)
    ]
  ]
]
  where
    first_bytes : (s : Bytes) → 15 ≤ length s → length (take 15 s) ≡ 15
    first_bytes s h = omega (
      arith,
      h,
      ap length (take-append-drop 15 s),
      length-append (take 15 s) (drop 15 s),
      length-drop 15 s,
    )

parse_rotation_suffix-IsRotated :
    (n base ts : Bytes) (seq : ℕ)
    → parse_rotation_suffix n base ≡ some (ts, seq)
    → IsRotated base n ts seq
unfolding parse_rotation_suffix
parse_rotation_suffix-IsRotated n base ts seq e =
    elim (Option-cases (strip_prefix (base ++ (46 ∷ [])) n)) [
      | inl x ↦ cc (rw (x, parse_rotation_suffix) at e)
      | inr (rest, x) ↦
          suffix-IsRotated base n rest ts seq
            (strip_prefix-some (base ++ (46 ∷ [])) n rest x ∙ append_assoc base (46 ∷ []) rest) x e
    ]

IsRotated-parse_rotation_suffix :
    (n base ts : Bytes) (seq : ℕ)
    → IsRotated base n ts seq
    → parse_rotation_suffix n base ≡ some (ts, seq)
unfolding parse_seq
IsRotated-parse_rotation_suffix n base ts seq (plain d e z) =
    ap (λ m. parse_rotation_suffix m base) (e ∙ ap (λ t. base ++ (46 ∷ t)) (sym (append-nil ts)))
    ∙ parse_back base ts [] seq (IsDated-IsStamp ts d) (ap some (sym z))
IsRotated-parse_rotation_suffix n base ts seq (numbered c s d e chars z) =
    ap (λ m. parse_rotation_suffix m base) e
    ∙ parse_back base ts (46 ∷ c ∷ s) seq (IsDated-IsStamp ts d)
        (parse_digits-value 0 (c ∷ s) chars ∙ ap some (sym z))

-- The parser finds a timestamp and a number in a name if and only if the name has that form.
pub parse_rotation_suffix_iff :
    (n base ts : Bytes) (seq : ℕ)
    → (parse_rotation_suffix n base ≡ some (ts, seq)) ↔ IsRotated base n ts seq
parse_rotation_suffix_iff n base ts seq =
    (parse_rotation_suffix-IsRotated n base ts seq, IsRotated-parse_rotation_suffix n base ts seq)
