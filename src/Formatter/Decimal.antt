-- ===== src/Formatter/Decimal.antt =====
-- The decimal numbers that `to_chars` writes.
use sim_logger.Prelude.{
  ℕ, zero, suc, ◌+◌, ◌*◌, ◌-◌, ◌/◌, ◌%◌, ◌^◌, ◌≤◌, ◌<◌, true, [], ◌∷◌, ◌++◌, some, ◌≡◌, refl, ◌∙◌,
  inl, inr, ltb, leb, Bool-cases, arith, length, length-append, Bytes,
}
use sim_logger.Formatter.{digits, to_chars, append_chars, append_u64, append_u32, ok}

-- The number that digits stand for, behind the digits of `acc`.
abbrev pub value_onto : ℕ → Bytes → ℕ
value_onto acc [] = acc
value_onto acc (c ∷ s) = value_onto (acc * 10 + (c - 48)) s

abbrev pub AllDigits : Bytes → Type 0
AllDigits [] = 0 ≤ 0
AllDigits (c ∷ s) = (48 ≤ c) × (c ≤ 57) × AllDigits s

-- The text is a decimal number, of one digit at least.
pub record IsDecimal (n : ℕ) (s : Bytes) : Type 0 where
  pub value : value_onto 0 s ≡ n
  pub chars : AllDigits s
  pub some_digit : 1 ≤ length s

ten_pow : ℕ → ℕ
ten_pow zero = 1
ten_pow (suc n) = ten_pow n * 10

value_onto-snoc :
    (acc : ℕ) (s : Bytes) (c : ℕ)
    → value_onto acc (s ++ (c ∷ [])) ≡ value_onto acc s * 10 + (c - 48)
value_onto-snoc acc [] c = refl
value_onto-snoc acc (d ∷ s) c = value_onto-snoc (acc * 10 + (d - 48)) s c

AllDigits-snoc : (s : Bytes) (c : ℕ) → AllDigits s → 48 ≤ c → c ≤ 57 → AllDigits (s ++ (c ∷ []))
AllDigits-snoc [] c a l u = (l, u, omega arith)
AllDigits-snoc (d ∷ s) c (x, y, a) l u = (x, y, AllDigits-snoc s c a l u)

ltb_iff : (a b : ℕ) → ltb a b ≡ true → a < b
ltb_iff a b e = ground arith

length-digits : (fuel k n : ℕ) → n < ten_pow (suc k) → length (digits fuel n) ≤ suc k
unfolding digits ten_pow
length-digits zero k n small = omega arith
length-digits (suc fuel) zero n small = elim (Bool-cases (ltb n 10)) [
  | inl one ↦ rw one (omega arith)
  | inr more ↦ absurd (ground (arith, more, small))
]
length-digits (suc fuel) (suc k) n small = elim (Bool-cases (ltb n 10)) [
  | inl one ↦ rw one (omega arith)
  | inr more ↦
      rw (more, digits)
        (omega (
          arith,
          length-digits fuel k (n / 10) (omega (arith, small)),
          length-append (digits fuel (n / 10)) ((48 + n % 10) ∷ []),
        ))
]

IsDecimal-snoc :
    (n : ℕ) (s : Bytes) → IsDecimal (n / 10) s → IsDecimal n (s ++ ((48 + n % 10) ∷ []))
IsDecimal-snoc n s d = record {
  value = value_onto-snoc 0 s (48 + n % 10) ∙ omega (arith, d.value);
  chars = AllDigits-snoc s (48 + n % 10) d.chars (omega arith) (omega arith);
  some_digit = omega (arith, length-append s ((48 + n % 10) ∷ []));
}

IsDecimal-one : (n : ℕ) → n < 10 → IsDecimal n ((48 + n) ∷ [])
IsDecimal-one n small = record {
  value = omega arith;
  chars = (omega arith, omega arith, omega arith);
  some_digit = omega arith;
}

digits-IsDecimal : (fuel n : ℕ) → n < ten_pow (suc fuel) → IsDecimal n (digits (suc fuel) n)
unfolding digits ten_pow
digits-IsDecimal zero n small = elim (Bool-cases (ltb n 10)) [
  | inl one ↦ rw one (IsDecimal-one n (ltb_iff n 10 one))
  | inr more ↦ absurd (ground (arith, more, small))
]
digits-IsDecimal (suc fuel) n small = elim (Bool-cases (ltb n 10)) [
  | inl one ↦ rw (one, digits) (IsDecimal-one n (ltb_iff n 10 one))
  | inr more ↦
      rw (more, digits)
        (IsDecimal-snoc n (digits (suc fuel) (n / 10))
          (digits-IsDecimal fuel (n / 10) (omega (arith, small))))
]

wide_u64 : (n : ℕ) → n < 2 ^ 64 → n < ten_pow 20
unfolding ten_pow
wide_u64 n small = omega arith

wide_u32 : (n : ℕ) → n < 2 ^ 32 → n < ten_pow 10
unfolding ten_pow
wide_u32 n small = omega arith

fits : (size n : ℕ) → length (digits 20 n) ≤ size → to_chars size n ≡ some (digits 20 n)
unfolding to_chars
fits size n room = rw (leb_intro (length (digits 20 n)) size room)
  where
    leb_intro : (a b : ℕ) → a ≤ b → leb a b ≡ true
    leb_intro a b h = ground arith

-- Numbers of the widths that the formatter prints fit its buffers, of 32 and of 16 bytes: no
-- exception is thrown, and what is appended is the decimal text of the number.
pub append_chars_fits :
    (out : Bytes) (n m : ℕ)
    → n < 2 ^ 64
    → m < 2 ^ 32
    → ((s : Bytes) × (append_u64 out n ≡ ok (out ++ s)) × IsDecimal n s)
      × ((s : Bytes) × (append_u32 out m ≡ ok (out ++ s)) × IsDecimal m s)
unfolding append_u64 append_u32 append_chars
append_chars_fits out n m small small32 = (
  (
    digits 20 n,
    rw (fits 32 n (omega (arith, length-digits 20 19 n (wide_u64 n small)))),
    digits-IsDecimal 19 n (wide_u64 n small),
  ),
  (
    digits 20 m,
    rw (fits 16 m (omega (arith, length-digits 20 9 m (wide_u32 m small32)))),
    digits-IsDecimal 19 m (wide_u64 m (omega arith)),
  ),
)

pub digits_u64 : (n : ℕ) → n < 2 ^ 64 → IsDecimal n (digits 20 n)
digits_u64 n small = digits-IsDecimal 19 n (wide_u64 n small)
