-- ===== src/Prune/Order.antt =====
-- The order of the rotated files: what it is, that it is transitive and that nothing stands before
-- itself.
use sim_logger.Prelude.{ℕ, ◌<◌, ap, true, false, [], ◌∷◌, ◌≡◌, refl, arith, Bytes, bytes_eq_iff}
use sim_logger.Prune.{Candidate, bytes_lt, before}

pub bytes_lt_irrefl : (a : Bytes) → bytes_lt a a ≡ false
unfolding bytes_lt
bytes_lt_irrefl [] = refl
bytes_lt_irrefl (x ∷ a) = ground (arith, bytes_lt_irrefl a)

pub bytes_lt_trans :
    (a b c : Bytes) → bytes_lt a b ≡ true → bytes_lt b c ≡ true → bytes_lt a c ≡ true
unfolding bytes_lt
bytes_lt_trans [] [] c p q = cc
bytes_lt_trans [] (y ∷ b) [] p q = cc
bytes_lt_trans [] (y ∷ b) (z ∷ c) p q = refl
bytes_lt_trans (x ∷ a) [] c p q = cc
bytes_lt_trans (x ∷ a) (y ∷ b) [] p q = cc
bytes_lt_trans (x ∷ a) (y ∷ b) (z ∷ c) p q = ground (arith, p, q, bytes_lt_trans a b c)

pub before_irrefl : (a : Candidate) → before a a ≡ false
unfolding before
before_irrefl a = ground (arith, bytes_eq_iff a.ts a.ts)

pub before_trans : (a b c : Candidate) → before a b ≡ true → before b c ≡ true → before a c ≡ true
unfolding before
before_trans a b c p q = ground (
  arith,
  p,
  q,
  bytes_eq_iff a.ts b.ts,
  bytes_eq_iff b.ts c.ts,
  bytes_eq_iff a.ts c.ts,
  bytes_lt_trans a.ts b.ts c.ts,
  bytes_lt_irrefl a.ts,
)

-- The order of words: the texts are the same up to a place where the first ends, or has the smaller
-- byte.
pub data IsLexLess : Bytes → Bytes → Type 0 where
  ends : {y : ℕ} {b : Bytes} → IsLexLess [] (y ∷ b)
  differs : {x y : ℕ} {a b : Bytes} → x < y → IsLexLess (x ∷ a) (y ∷ b)
  agrees : {x : ℕ} {a b : Bytes} → IsLexLess a b → IsLexLess (x ∷ a) (x ∷ b)

-- The file was rotated earlier: it has the earlier timestamp or, in the same second, the smaller
-- sequence number.
pub data IsOlder (a b : Candidate) : Type 0 where
  earlier : IsLexLess a.ts b.ts → IsOlder a b
  same_second : a.ts ≡ b.ts → a.seq < b.seq → IsOlder a b

IsLexLess-bytes_lt : {a b : Bytes} → IsLexLess a b → bytes_lt a b ≡ true
unfolding bytes_lt
IsLexLess-bytes_lt ends = refl
IsLexLess-bytes_lt (differs less) = ground (arith, less)
IsLexLess-bytes_lt (agrees less) = ground (arith, IsLexLess-bytes_lt less)

pub IsOlder-before : (a b : Candidate) → IsOlder a b → before a b ≡ true
unfolding before
IsOlder-before a b (earlier less) = ground (
  arith,
  IsLexLess-bytes_lt less,
  bytes_eq_iff a.ts b.ts,
  bytes_lt_irrefl a.ts,
  λ (e : a.ts ≡ b.ts). ap (λ t. bytes_lt a.ts t) e,
)
IsOlder-before a b (same_second same less) = ground (arith, less, bytes_eq_iff a.ts b.ts, same)
