-- ===== src/Rotation/Parts.antt =====
-- The parts of the parser of rotated names: the prefix, the runs of digits and the place of a byte.
use mathlib.Core.Option.{some-injective}
use sim_logger.Prelude.{
  ℕ, zero, suc, ◌%◌, ◌^◌, ◌≤◌, ◌*◌, ◌+◌, ◌-◌, Bool, true, ◌&&◌, [], ◌∷◌, ◌++◌, some, ◌≡◌, inl, inr,
  refl, ap, ◌∙◌, arith, ==_iff, Bool-cases, ◌==◌, length, take, drop, get_elem?, Bytes,
}
use sim_logger.Formatter.Decimal.{AllDigits}
use sim_logger.Rotation.{strip_prefix, is_digit, all_digits, parse_digits}
use sim_logger.Rotation.Suffix.{digit_test}

pub strip_prefix-some : (p s rest : Bytes) → strip_prefix p s ≡ some rest → s ≡ p ++ rest
unfolding strip_prefix
strip_prefix-some [] s rest e = some-injective s rest e
strip_prefix-some (c ∷ p) [] rest e = cc
strip_prefix-some (c ∷ p) (x ∷ s) rest e = elim (Bool-cases (x == c)) [
  | inl y ↦
      ap (λ t. x ∷ t) (strip_prefix-some p s rest (rw y at e))
      ∙ ap (λ k. k ∷ p ++ rest) ((==_iff x c).0 y)
  | inr n ↦ cc (rw n at e)
]

pub is_digit_range : (c : ℕ) → is_digit c ≡ true → (48 ≤ c) × (c ≤ 57)
unfolding is_digit
is_digit_range c e = ground (arith, e)

pub all_digits-AllDigits : (s : Bytes) → all_digits s ≡ true → AllDigits s
unfolding all_digits
all_digits-AllDigits [] e = omega arith
all_digits-AllDigits (c ∷ s) e = elim (Bool-cases (is_digit c)) [
  | inl y ↦ let (low, high) = is_digit_range c y in (low, high, all_digits-AllDigits s (rw y at e))
  | inr n ↦ cc (rw n at e)
]

pub AllDigits-all_digits : (s : Bytes) → AllDigits s → all_digits s ≡ true
unfolding all_digits
AllDigits-all_digits [] d = refl
AllDigits-all_digits (c ∷ s) (low, high, d) = rw (digit_test c low high) (AllDigits-all_digits s d)

pub parse_digits-AllDigits : (s : Bytes) (acc v : ℕ) → parse_digits acc s ≡ some v → AllDigits s
unfolding parse_digits
parse_digits-AllDigits [] acc v e = omega arith
parse_digits-AllDigits (c ∷ s) acc v e = elim (Bool-cases (is_digit c)) [
  | inl y ↦
      let (low, high) = is_digit_range c y in
      (low, high, parse_digits-AllDigits s ((acc * 10 + (c - 48)) % 2 ^ 32) v (rw y at e))
  | inr n ↦ cc (rw n at e)
]

pub split_at : (k c : ℕ) (s : Bytes) → get_elem? s k ≡ some c → s ≡ take k s ++ (c ∷ drop (suc k) s)
split_at zero c [] e = cc
split_at (suc k) c [] e = cc
split_at zero c (x ∷ s) e = ap (λ y. y ∷ s) (some-injective x c e)
split_at (suc k) c (x ∷ s) e = ap (λ t. x ∷ t) (split_at k c s e)

pub get_elem?-append : (a b : Bytes) (c k : ℕ) → length a ≡ k → get_elem? (a ++ (c ∷ b)) k ≡ some c
get_elem?-append [] b c zero e = refl
get_elem?-append [] b c (suc k) e = absurd (omega (arith, e))
get_elem?-append (x ∷ a) b c zero e = absurd (omega (arith, e))
get_elem?-append (x ∷ a) b c (suc k) e = get_elem?-append a b c k (omega (arith, e))

pub drop_behind : (a b : Bytes) (c k : ℕ) → length a ≡ k → drop (suc k) (a ++ (c ∷ b)) ≡ b
drop_behind [] b c zero e = refl
drop_behind [] b c (suc k) e = absurd (omega (arith, e))
drop_behind (x ∷ a) b c zero e = absurd (omega (arith, e))
drop_behind (x ∷ a) b c (suc k) e = drop_behind a b c k (omega (arith, e))

pub and_both : (a b : Bool) → (a && b) ≡ true → (a ≡ true) × (b ≡ true)
and_both a b e = ground (arith, e)
