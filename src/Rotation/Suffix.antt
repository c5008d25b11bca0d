-- ===== src/Rotation/Suffix.antt =====
-- Every name that a rotation gives is free, and is read back by the pruning.
use mathlib.Core.Option.{some-injective}
use sim_logger.Prelude.{
  ℕ, zero, suc, ◌+◌, ◌*◌, ◌-◌, ◌%◌, ◌^◌, ◌≤◌, ◌<◌, Bool, true, false, [], ◌∷◌, ◌++◌, none, some,
  ◌≡◌, inl, inr, refl, sym, ap, ◌∙◌, subst, arith, ==_iff, Bool-cases, ltb, ◌==◌, length,
  length-append, take, drop, Bytes, append_assoc, append-nil,
}
use sim_logger.Formatter.{digits}
use sim_logger.Formatter.Decimal.{value_onto, AllDigits, IsDecimal, digits_u64}
use sim_logger.Rotation.{
  strip_prefix, is_digit, is_timestamp, parse_digits, parse_seq, parse_rotation_suffix,
  rotated_base, with_seq, free_seq, rotated_name,
}

strip_prefix-append : (p s : Bytes) → strip_prefix p (p ++ s) ≡ some s
unfolding strip_prefix
strip_prefix-append [] s = refl
strip_prefix-append (c ∷ p) s = rw (same c, strip_prefix) (strip_prefix-append p s)
  where
    same : (n : ℕ) → (n == n) ≡ true
    same n = ground arith

pub take_append : (xs ys : Bytes) (n : ℕ) → length xs ≡ n → take n (xs ++ ys) ≡ xs
take_append [] ys zero e = refl
take_append [] ys (suc n) e = absurd (omega (arith, e))
take_append (x ∷ xs) ys zero e = absurd (omega (arith, e))
take_append (x ∷ xs) ys (suc n) e = ap (◌∷◌ x) (take_append xs ys n (omega (arith, e)))

pub drop_append : (xs ys : Bytes) (n : ℕ) → length xs ≡ n → drop n (xs ++ ys) ≡ ys
drop_append [] ys zero e = refl
drop_append [] ys (suc n) e = absurd (omega (arith, e))
drop_append (x ∷ xs) ys zero e = absurd (omega (arith, e))
drop_append (x ∷ xs) ys (suc n) e = drop_append xs ys n (omega (arith, e))

pub digit_test : (c : ℕ) → 48 ≤ c → c ≤ 57 → is_digit c ≡ true
unfolding is_digit
digit_test c l u = ground arith

-- The wrapping accumulator holds the number modulo 2 ^ 32.
pub parse_digits-value :
    (acc : ℕ) (s : Bytes)
    → AllDigits s
    → parse_digits (acc % 2 ^ 32) s ≡ some (value_onto acc s % 2 ^ 32)
unfolding parse_digits
parse_digits-value acc [] d = refl
parse_digits-value acc (c ∷ s) (l, u, d) =
    rw (digit_test c l u, parse_digits)
      (ap (λ a. parse_digits a s) (wraps acc (c - 48))
        ∙ parse_digits-value (acc * 10 + (c - 48)) s d)
  where
    wraps : (a d : ℕ) → ((a % 2 ^ 32) * 10 + d) % 2 ^ 32 ≡ (a * 10 + d) % 2 ^ 32
    wraps a d = omega arith

parse_seq-decimal : (n : ℕ) (s : Bytes) → n < 2 ^ 32 → IsDecimal n s → parse_seq (46 ∷ s) ≡ some n
unfolding parse_seq
parse_seq-decimal n [] small d = absurd (omega (arith, d.some_digit))
parse_seq-decimal n (c ∷ s) small d =
    parse_digits-value 0 (c ∷ s) d.chars ∙ ap some (omega (arith, d.value))

-- A timestamp of the right shape.
pub record IsStamp (ts : Bytes) : Type 0 where
  pub size : length ts ≡ 15
  pub shape : is_timestamp ts ≡ true

pub parse_back :
    (base ts tail : Bytes) (n : ℕ)
    → IsStamp ts
    → parse_seq tail ≡ some n
    → parse_rotation_suffix (base ++ (46 ∷ ts ++ tail)) base ≡ some (ts, n)
unfolding parse_rotation_suffix
parse_back base ts tail n stamp e = rw (
  sym (append_assoc base (46 ∷ []) (ts ++ tail)),
  strip_prefix-append (base ++ (46 ∷ [])) (ts ++ tail),
  parse_rotation_suffix,
  long,
  take_append ts tail 15 stamp.size,
  stamp.shape,
  drop_append ts tail 15 stamp.size,
  e,
  take_append ts tail 15 stamp.size,
)
  where
    long : ltb (length (ts ++ tail)) 15 ≡ false
    long = ground (arith, length-append ts tail, stamp.size)

parse_with_seq :
    (base ts : Bytes) (n : ℕ)
    → IsStamp ts
    → n < 10000
    → parse_rotation_suffix (with_seq (rotated_base base ts) n) base ≡ some (ts, n)
unfolding with_seq rotated_base
parse_with_seq base ts n stamp small =
    ap (λ f. parse_rotation_suffix f base) (append_assoc base (46 ∷ ts) (46 ∷ digits 20 n))
    ∙ parse_back base ts (46 ∷ digits 20 n) n stamp
        (parse_seq-decimal n (digits 20 n) (omega arith) (digits_u64 n (omega arith)))

parse_plain :
    (base ts : Bytes)
    → IsStamp ts
    → parse_rotation_suffix (rotated_base base ts) base ≡ some (ts, 0)
unfolding rotated_base parse_seq
parse_plain base ts stamp =
    ap (λ t. parse_rotation_suffix (base ++ (46 ∷ t)) base) (sym (append-nil ts))
    ∙ parse_back base ts [] 0 stamp refl

-- The loop finds the first free number.
free_seq_lem :
    (exists : Bytes → Bool) (name : Bytes) (left seq : ℕ) (out : Bytes)
    → free_seq exists name left seq ≡ some out
    → (n : ℕ) × (n < seq + left) × (out ≡ with_seq name n) × (exists out ≡ false)
unfolding free_seq
free_seq_lem exists name zero seq out e = cc
free_seq_lem exists name (suc left) seq out e = elim (Bool-cases (exists (with_seq name seq))) [
  | inl taken ↦
      let (n, lt, is, free) =
        free_seq_lem exists name left (seq + 1) out (rw (taken, free_seq) at e) in
      (n, omega (arith, lt), is, free)
  | inr free ↦
      let same = some-injective (with_seq name seq) out (rw (free, free_seq) at e) in
      (seq, omega arith, sym same, ap exists (sym same) ∙ free)
]

free_seq-none :
    (exists : Bytes → Bool) (name : Bytes) (left seq n : ℕ)
    → free_seq exists name left seq ≡ none
    → seq ≤ n
    → n < seq + left
    → exists (with_seq name n) ≡ true
unfolding free_seq
free_seq-none exists name zero seq n e low high = absurd (omega arith)
free_seq-none exists name (suc left) seq n e low high =
    elim (Bool-cases (exists (with_seq name seq))) [
      | inl taken ↦ elim (Bool-cases (seq == n)) [
        | inl same ↦ subst (λ k. exists (with_seq name k) ≡ true) ((==_iff seq n).0 same) taken
        | inr differ ↦
            free_seq-none exists name left (seq + 1) n (rw (taken, free_seq) at e)
              (ground (arith, differ, low)) (omega (arith, high))
      ]
      | inr free ↦ cc (rw (free, free_seq) at e)
    ]

-- For a timestamp of the right shape: a name that the rotation chooses is one for which the test for
-- its existence answers no, and the pruning reads it back as that timestamp with a sequence number
-- below 10000, so the file will be seen by later prunings; and the rotation fails only if the test
-- answers yes for the names with and without each of the numbers 1 to 9999.
pub rotated_name_recognised :
    (exists : Bytes → Bool) (base ts : Bytes)
    → IsStamp ts
    → ((name : Bytes)
        → rotated_name exists base ts ≡ some name
        → (exists name ≡ false)
          × ((n : ℕ) × (n < 10000) × (parse_rotation_suffix name base ≡ some (ts, n))))
      × (rotated_name exists base ts ≡ none
          → (exists (rotated_base base ts) ≡ true)
            × ((n : ℕ) → 1 ≤ n → n < 10000 → exists (with_seq (rotated_base base ts) n) ≡ true))
unfolding rotated_name
rotated_name_recognised exists base ts stamp = elim (Bool-cases (exists (rotated_base base ts))) [
  | inl taken ↦ (
    λ name e.
        let (n, lt, is, free) =
          free_seq_lem exists (rotated_base base ts) 9999 1 name (rw (taken, rotated_name) at e) in
        (
          free,
          (
            n,
            omega (arith, lt),
            ap (λ f. parse_rotation_suffix f base) is
                ∙ parse_with_seq base ts n stamp (omega (arith, lt)),
          ),
        ),
    λ e. (
      taken,
      λ n low high.
          free_seq-none exists (rotated_base base ts) 9999 1 n (rw (taken, rotated_name) at e) low
            (omega (arith, high)),
    ),
  )
  | inr free ↦ (
    λ name e.
        let same = some-injective (rotated_base base ts) name (rw (free, rotated_name) at e) in
        (
          ap exists (sym same) ∙ free,
          (
            0,
            omega arith,
            ap (λ f. parse_rotation_suffix f base) (sym same) ∙ parse_plain base ts stamp,
          ),
        ),
    λ e. cc (rw (free, rotated_name) at e),
  )
]

pub rotated_name-free :
    (exists : Bytes → Bool) (base ts name : Bytes)
    → rotated_name exists base ts ≡ some name
    → exists name ≡ false
unfolding rotated_name
rotated_name-free exists base ts name e = elim (Bool-cases (exists (rotated_base base ts))) [
  | inl taken ↦
      let (n, lt, is, free) =
        free_seq_lem exists (rotated_base base ts) 9999 1 name (rw (taken, rotated_name) at e) in
      free
  | inr free ↦
      ap exists (sym (some-injective (rotated_base base ts) name (rw (free, rotated_name) at e)))
      ∙ free
]

-- The name is none that the base file has.
pub rotated_name-longer :
    (exists : Bytes → Bool) (base ts name : Bytes)
    → rotated_name exists base ts ≡ some name
    → length base < length name
unfolding rotated_name with_seq rotated_base
rotated_name-longer exists base ts name e = elim (Bool-cases (exists (rotated_base base ts))) [
  | inl taken ↦
      let (n, lt, is, free) =
        free_seq_lem exists (rotated_base base ts) 9999 1 name (rw (taken, rotated_name) at e) in
      omega (
        arith,
        ap length is,
        length-append (base ++ (46 ∷ ts)) (46 ∷ digits 20 n),
        length-append base (46 ∷ ts),
      )
  | inr free ↦ omega (
    arith,
    ap length (some-injective (rotated_base base ts) name (rw (free, rotated_name) at e)),
    length-append base (46 ∷ ts),
  )
]
