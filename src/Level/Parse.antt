-- ===== src/Level/Parse.antt =====
-- What level names and numbers parse to: `level_from_string`, `to_string`, `level_from_int`.
use sim_logger.Prelude.{
  ℕ, ◌+◌, ◌≤◌, suc, true, [], ◌∷◌, map, ◌≡◌, ◌↔◌, ◌⊎◌, refl, ap, some, Bytes, codes, arith, length,
}
use sim_logger.Level.{
  Level, debug, info, warn, error, fatal, to_upper_ascii, iequals_from, iequals_ascii, to_string,
  level_from_string,
}

-- Two bytes that are equal, or the upper-case and the lower-case form of one ASCII letter.
abbrev pub SameLetter : ℕ → ℕ → Type 0
SameLetter x y =
    (x ≡ y) ⊎ ((65 ≤ y) × (y ≤ 90) × (x ≡ y + 32)) ⊎ ((65 ≤ x) × (x ≤ 90) × (y ≡ x + 32))

-- Two texts of one length whose bytes are, place by place, the same but for the case of letters.
pub data UpToCase : Bytes → Bytes → Type 0 where
  end : UpToCase [] []
  next : {x y : ℕ} {s t : Bytes} → SameLetter x y → UpToCase s t → UpToCase (x ∷ s) (y ∷ t)

to_upper_ascii_iff : (x y : ℕ) → (to_upper_ascii x ≡ to_upper_ascii y) ↔ SameLetter x y
unfolding to_upper_ascii
to_upper_ascii_iff x y = ground arith

-- The text with its lower-case ASCII letters made upper-case.
abbrev upper : Bytes → Bytes
upper = map to_upper_ascii

length-upper : (a : Bytes) → length (upper a) ≡ length a
length-upper [] = refl
length-upper (x ∷ a) = ap suc (length-upper a)

iequals_from_iff :
    (a b : Bytes) → length a ≡ length b → (iequals_from a b ≡ true) ↔ (upper a ≡ upper b)
unfolding iequals_from
iequals_from_iff [] [] h = ground arith
iequals_from_iff [] (y ∷ b) h = absurd (omega arith)
iequals_from_iff (x ∷ a) [] h = absurd (omega arith)
iequals_from_iff (x ∷ a) (y ∷ b) h = ground (arith, iequals_from_iff a b)

iequals_ascii_iff : (a b : Bytes) → (iequals_ascii a b ≡ true) ↔ (upper a ≡ upper b)
unfolding iequals_ascii
iequals_ascii_iff a b = ground (
  arith,
  iequals_from_iff a b,
  length-upper a,
  length-upper b,
  λ (e : upper a ≡ upper b). ap length e,
)

UpToCase-upper : {a b : Bytes} → UpToCase a b → upper a ≡ upper b
UpToCase-upper end = refl
UpToCase-upper (next {x = x} {y = y} e u) = cc ((to_upper_ascii_iff x y).1 e, UpToCase-upper u)

upper-UpToCase : (a b : Bytes) → upper a ≡ upper b → UpToCase a b
upper-UpToCase [] [] e = end
upper-UpToCase [] (y ∷ b) e = cc
upper-UpToCase (x ∷ a) [] e = cc
upper-UpToCase (x ∷ a) (y ∷ b) e =
    next ((to_upper_ascii_iff x y).0 (ground (arith, e))) (upper-UpToCase a b (ground (arith, e)))

UpToCase-iff : (a b : Bytes) → (upper a ≡ upper b) ↔ UpToCase a b
UpToCase-iff a b = (upper-UpToCase a b, UpToCase-upper)

-- A name that the parser accepts for a level.
abbrev pub Names : Level → Bytes → Type 0
Names debug s = UpToCase s (codes "DEBUG")
Names info s = UpToCase s (codes "INFO")
Names warn s = UpToCase s (codes "WARN") ⊎ UpToCase s (codes "WARNING")
Names error s = UpToCase s (codes "ERROR")
Names fatal s = UpToCase s (codes "FATAL")

to_string_parses : (l : Level) → level_from_string (to_string l) ≡ some l
unfolding level_from_string to_string iequals_ascii iequals_from to_upper_ascii
to_string_parses debug = refl
to_string_parses info = refl
to_string_parses warn = refl
to_string_parses error = refl
to_string_parses fatal = refl

-- The names, compared in upper case.
Uppers : Level → Bytes → Type 0
Uppers l s = (upper s ≡ to_string l) ⊎ ((l ≡ warn) × (upper s ≡ codes "WARNING"))

parses_upper : (s : Bytes) (l : Level) → (level_from_string s ≡ some l) ↔ Uppers l s
unfolding Uppers level_from_string to_string to_upper_ascii
parses_upper s l = ground (
  arith,
  iequals_ascii_iff s (codes "DEBUG"),
  iequals_ascii_iff s (codes "INFO"),
  iequals_ascii_iff s (codes "WARN"),
  iequals_ascii_iff s (codes "WARNING"),
  iequals_ascii_iff s (codes "ERROR"),
  iequals_ascii_iff s (codes "FATAL"),
)

Uppers-Names : (s : Bytes) (l : Level) → Uppers l s ↔ Names l s
unfolding Uppers to_string to_upper_ascii
Uppers-Names s debug = ground (arith, UpToCase-iff s (codes "DEBUG"))
Uppers-Names s info = ground (arith, UpToCase-iff s (codes "INFO"))
Uppers-Names s warn =
    ground (arith, UpToCase-iff s (codes "WARN"), UpToCase-iff s (codes "WARNING"))
Uppers-Names s error = ground (arith, UpToCase-iff s (codes "ERROR"))
Uppers-Names s fatal = ground (arith, UpToCase-iff s (codes "FATAL"))

-- A text parses to a level if and only if it is, up to the case of ASCII letters, the name DEBUG,
-- INFO, WARN, ERROR or FATAL of the level, or "WARNING" for `warn`; and the text that `to_string`
-- gives a level parses to it.
pub level_from_string_iff :
    (s : Bytes) (l : Level)
    → ((level_from_string s ≡ some l) ↔ Names l s) × (level_from_string (to_string l) ≡ some l)
level_from_string_iff s l = (ground (arith, parses_upper s l, Uppers-Names s l), to_string_parses l)
