-- ===== src/Registry/Parent.antt =====
-- The parent of a dotted name.
use sim_logger.Prelude.{
  ℕ, zero, suc, ◌+◌, ◌-◌, ◌<◌, ◌==◌, true, false, ◌||◌, [], ◌∷◌, ◌++◌, Option, none, some, ◌≡◌, ◌≢◌,
  ◌⊎◌, inl, inr, if◌then◌else◌, refl, ap, sym, subst, arith, Bool-cases, ==_iff, length, take,
  length-take, Bytes, codes, bytes_eq, bytes_eq_iff,
}
use sim_logger.Registry.{choose_parent, find_last_of, parent_name_for}

-- No byte of the text is a dot.
pub data Dotless : Bytes → Type 0 where
  none_left : Dotless []
  other : {x : ℕ} {s : Bytes} → x ≢ 46 → Dotless s → Dotless (x ∷ s)

-- The parent that a name has: none for the empty name and the root's; that of the rest, if the
-- name ends in a dot; else what stands before the last dot, or the root where nothing does.
pub data Parent : Bytes → Bytes → Type 0 where
  unnamed : Parent [] []
  root : Parent (codes "root") []
  trailing : {s p : Bytes} → s ≢ [] → Parent s p → Parent (s ++ (46 ∷ [])) p
  dotted : {s t : Bytes} → s ≢ [] → t ≢ [] → Dotless t → Parent (s ++ (46 ∷ t)) s
  leading : {t : Bytes} → Dotless t → Parent (46 ∷ t) (codes "root")
  plain : {s : Bytes} → s ≢ [] → s ≢ codes "root" → Dotless s → Parent s (codes "root")

-- What the search for the last dot finds.
data LastDot (s : Bytes) : Option ℕ → Type 0 where
  missing : Dotless s → LastDot s none
  at :
      {i : ℕ} (t : Bytes)
      → s ≡ take i s ++ (46 ∷ t)
      → Dotless t
      → length s ≡ i + 1 + length t
      → LastDot s (some i)

LastDot-cons :
    (x : ℕ) (s : Bytes) (o : Option ℕ)
    → LastDot s o
    → LastDot (x ∷ s) (elim o [ some i ↦ some (suc i) | none ↦ if x == 46 then some 0 else none ])
LastDot-cons x s (some i) (at t e d n) = at t (ap (◌∷◌ x) e) d (omega arith)
LastDot-cons x s none (missing d) = elim (Bool-cases (x == 46)) [
  | inl y ↦ rw y (at s (ap (λ c. c ∷ s) ((==_iff x 46).0 y)) d (omega arith))
  | inr n ↦ rw n (missing (other (λ e. absurd (ground (arith, e, n))) d))
]

find_last_of-LastDot : (s : Bytes) → LastDot s (find_last_of s 46)
unfolding find_last_of
find_last_of-LastDot [] = missing none_left
find_last_of-LastDot (x ∷ s) = LastDot-cons x s (find_last_of s 46) (find_last_of-LastDot s)

take_ne_nil : (i : ℕ) (s : Bytes) → i ≢ 0 → s ≢ [] → take i s ≢ []
take_ne_nil zero s h g e = h refl
take_ne_nil (suc i) [] h g e = g refl
take_ne_nil (suc i) (x ∷ s) h g e = cc

at_end :
    (i : ℕ) (name t p : Bytes)
    → i ≢ 0
    → name ≢ []
    → name ≡ take i name ++ (46 ∷ t)
    → length t ≡ 0
    → Parent (take i name) p
    → Parent name p
at_end i name [] p h g e n d = subst (λ s. Parent s p) (sym e) (trailing (take_ne_nil i name h g) d)
at_end i name (x ∷ t) p h g e n d = absurd (omega arith)

not_zero : (i : ℕ) → (suc i == 0) ≡ false
not_zero i = ground arith

not_last :
    (i : ℕ) (name t : Bytes)
    → length name ≡ suc i + 1 + length t
    → (suc i == length name - 1) ≡ false
    → t ≢ []
not_last i name [] n y e = absurd (ground (arith, n, y))
not_last i name (x ∷ t) n y e = cc

choose_parent-Parent :
    (name : Bytes) (o : Option ℕ) (again : Option Bytes) (q : Bytes)
    → name ≢ []
    → name ≢ codes "root"
    → LastDot name o
    → again ≡ some q
    → Parent (take (length name - 1) name) q
    → (p : Bytes) × (choose_parent name o again ≡ some p) × Parent name p
unfolding choose_parent
choose_parent-Parent name none again q h g (missing d) e r = (codes "root", refl, plain h g d)
choose_parent-Parent name (some zero) again q h g (at t e' d n) e r =
    (codes "root", refl, subst (λ s. Parent s (codes "root")) (sym e') (leading d))
choose_parent-Parent name (some (suc i)) again q h g (at t e' d n) e r =
    elim (Bool-cases (suc i == length name - 1)) [
      | inl y ↦
          let w = (==_iff (suc i) (length name - 1)).0 y in
          (
            q,
            rw (not_zero i, y) e,
            at_end (suc i) name t q (λ z. omega (arith, z)) h e' (omega (arith, w, n))
                (subst (λ k. Parent (take k name) q) (sym w) r),
          )
      | inr y ↦ (
        take (suc i) name,
        rw (not_zero i, y),
        subst (λ s. Parent s (take (suc i) name)) (sym e')
            (dotted (take_ne_nil (suc i) name (λ z. omega (arith, z)) h) (not_last i name t n y) d),
      )
    ]

-- The test for the names that have no parent.
special_cases :
    (name : Bytes)
    → (((bytes_eq name [] || bytes_eq name (codes "root")) ≡ true) × Parent name [])
      ⊎ (((bytes_eq name [] || bytes_eq name (codes "root")) ≡ false)
          × (name ≢ [])
          × (name ≢ codes "root"))
special_cases name = elim (Bool-cases (bytes_eq name [])) [
  | inl y ↦ inl (rw y, subst (λ n. Parent n []) (sym ((bytes_eq_iff name []).0 y)) unnamed)
  | inr n ↦ elim (Bool-cases (bytes_eq name (codes "root"))) [
    | inl y ↦
        inl
          (rw (n, y), subst (λ m. Parent m []) (sym ((bytes_eq_iff name (codes "root")).0 y)) root)
    | inr m ↦ inr (
      rw (n, m),
      (λ e. ground (arith, bytes_eq_iff name [], e, n)),
      λ e. ground (arith, bytes_eq_iff name (codes "root"), e, m),
    )
  ]
]

length_pred : (name : Bytes) → name ≢ [] → length (take (length name - 1) name) + 1 ≡ length name
length_pred [] h = absurd (h refl)
length_pred (x ∷ s) h = omega (arith, length-take (length (x ∷ s) - 1) (x ∷ s))

-- With fuel for one call per byte and one more, `parent_name_for` returns the parent of the name,
-- as the naming rules define it.
pub parent_total :
    (fuel : ℕ) (name : Bytes)
    → length name < fuel
    → (p : Bytes) × (parent_name_for fuel name ≡ some p) × Parent name p
unfolding parent_name_for
parent_total zero name room = absurd (omega arith)
parent_total (suc fuel) name room = elim (special_cases name) [
  | inl (y, d) ↦ ([], rw y, d)
  | inr (y, h, g) ↦
      let (q, ran, d) =
        parent_total fuel (take (length name - 1) name) (omega (arith, length_pred name h)) in
      let (p, chosen, d') =
        choose_parent-Parent name (find_last_of name 46)
          (parent_name_for fuel (take (length name - 1) name)) q h g (find_last_of-LastDot name) ran
          d in
      (p, rw y chosen, d')
]
