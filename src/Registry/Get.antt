-- ===== src/Registry/Get.antt =====
-- What `get_logger` returns and leaves behind.
use mathlib.Core.Option.{some-injective}
use sim_logger.Prelude.{
  ℕ, zero, suc, ◌≤◌, ◌<◌, [], ◌∷◌, Option, none, some, ◌≡◌, ◌≢◌, ◌⊎◌, inl, inr, if◌then◌else◌, refl,
  ap, sym, ◌∙◌, subst, arith, Bool-cases, Option-cases, length, length-append, Bytes, codes,
  bytes_eq, bytes_eq_iff,
}
use sim_logger.Logger.{fetch}
use sim_logger.Logger.Effective.{fetch-lt}
use sim_logger.Registry.{Registry, parent_name_for, find, insert, get_logger}
use sim_logger.Registry.Parent.{
  Parent, unnamed, root, trailing, dotted, leading, plain, parent_total,
}
use sim_logger.Registry.Insert.{IsValid, Kept, Inserted, candidate, insert-Inserted}

-- The nesting of calls that a name needs beyond the first.
unfoldable pub depth : Bytes → ℕ
depth n = if bytes_eq n (codes "root") then 0 else suc (length n)

pub depth-le : (n : Bytes) → depth n ≤ suc (length n)
unfolding depth
depth-le n = elim (Bool-cases (bytes_eq n (codes "root"))) [
  | inl y ↦ rw y (omega arith)
  | inr m ↦ rw m (omega arith)
]

depth_other : (n : Bytes) → n ≢ codes "root" → depth n ≡ suc (length n)
unfolding depth
depth_other n h = elim (Bool-cases (bytes_eq n (codes "root"))) [
  | inl y ↦ absurd (h ((bytes_eq_iff n (codes "root")).0 y))
  | inr m ↦ rw m
]

parent_shorter :
    {n p : Bytes} → Parent n p → (p ≡ []) ⊎ ((p ≡ codes "root") ⊎ (length p < length n))
parent_shorter unnamed = inl refl
parent_shorter root = inl refl
parent_shorter (trailing {s = s} h d) = elim (parent_shorter d) [
  | inl e ↦ inl e
  | inr (inl e) ↦ inr (inl e)
  | inr (inr lt) ↦ inr (inr (omega (arith, lt, length-append s (46 ∷ []))))
]
parent_shorter (dotted {s = s} {t = t} h g d) = inr (inr (omega (arith, length-append s (46 ∷ t))))
parent_shorter (leading d) = inr (inl refl)
parent_shorter (plain h g d) = inr (inl refl)

depth_root : (p : Bytes) → p ≡ codes "root" → depth p ≡ 0
unfolding depth bytes_eq
depth_root p e = rw e

parent_depth : {n p : Bytes} → Parent n p → p ≢ [] → n ≢ codes "root" → depth p < depth n
parent_depth {n = n} {p = p} d h g = elim (parent_shorter d) [
  | inl e ↦ absurd (h e)
  | inr (inl e) ↦ omega (arith, depth_root p e, depth_other n g)
  | inr (inr lt) ↦ omega (arith, lt, depth-le p, depth_other n g)
]

-- The root logger's name has no parent.
root_alone : (n p : Bytes) → parent_name_for (suc (length n)) n ≡ some p → p ≢ [] → n ≢ codes "root"
unfolding parent_name_for
root_alone n p ran h e =
    h (sym (some-injective [] p (sym (ap (λ m. parent_name_for (suc (length m)) m) e) ∙ ran)))

-- After a call of `get_logger` for `name` the registry is valid, what it listed is unchanged, it
-- lists the name at the cell that is returned, and beside it only names that are higher up. If the
-- name was new, so is the logger, whose parent is the logger that is listed under the parent's name.
pub record Got (name : Bytes) (r : Registry) (out : ℕ × Registry) : Type 0 where
  pub valid : IsValid out.1
  pub kept : Kept r out.1
  pub found : find out.1.loggers name ≡ some out.0
  pub others :
      (n : Bytes) (j : ℕ)
      → find out.1.loggers n ≡ some j
      → (find r.loggers n ≡ some j) ⊎ ((n ≡ name) ⊎ (depth n < depth name))
  pub linked :
      find r.loggers name ≡ none
      → (p : Bytes) × (o : Option ℕ) × Parent name p
        × (fetch out.1.heap out.0 ≡ some (candidate name o))
        × (((p ≡ []) × (o ≡ none)) ⊎ ((p ≢ []) × (find out.1.loggers p ≡ o) × (o ≢ none)))

Got-present :
    (name : Bytes) (r : Registry) (i : ℕ)
    → IsValid r
    → find r.loggers name ≡ some i
    → Got name r (i, r)
Got-present name r i ok there = record {
  valid = ok;
  kept = record { names = λ n j e. e; cells = λ j l e. e };
  found = there;
  others = λ n j e. inl e;
  linked = λ new. cc;
}

Got-top :
    (name : Bytes) (r : Registry)
    → Parent name []
    → find r.loggers name ≡ none
    → Inserted name none r (insert name none r)
    → Got name r (insert name none r)
Got-top name r d new ins = record {
  valid = ins.valid;
  kept = ins.kept;
  found = ins.found;
  others = λ n j e. elim (ins.only n j e) [ inl a ↦ inl a | inr b ↦ inr (inl b) ];
  linked = λ _. ([], none, d, ins.fresh new, inl (refl, refl));
}

still_new :
    (name p : Bytes) (r r' : Registry) (j : ℕ)
    → find r.loggers name ≡ none
    → depth p < depth name
    → Got p r (j, r')
    → find r'.loggers name ≡ none
still_new name p r r' j new lower g = elim (Option-cases (find r'.loggers name)) [
  | inl e ↦ e
  | inr (k, e) ↦ elim (g.others name k e) [
    | inl old ↦ cc
    | inr (inl same) ↦ absurd (omega (arith, lower, ap depth same))
    | inr (inr above) ↦ absurd (omega (arith, lower, above))
  ]
]

Got-child :
    (name p : Bytes) (r r' : Registry) (j : ℕ)
    → Parent name p
    → p ≢ []
    → find r.loggers name ≡ none
    → depth p < depth name
    → Got p r (j, r')
    → Inserted name (some j) r' (insert name (some j) r')
    → Got name r (insert name (some j) r')
Got-child name p r r' j d h new lower g ins = record {
  valid = ins.valid;
  kept = record {
    names = λ n k e. ins.kept.names n k (g.kept.names n k e);
    cells = λ k l e. ins.kept.cells k l (g.kept.cells k l e);
  };
  found = ins.found;
  others = λ n k e. elim (ins.only n k e) [
    | inr same ↦ inr (inl same)
    | inl before ↦ elim (g.others n k before) [
      | inl old ↦ inl old
      | inr (inl parent) ↦ inr (inr (omega (arith, lower, ap depth parent)))
      | inr (inr above) ↦ inr (inr (omega (arith, lower, above)))
    ]
  ];
  linked = λ _. (
    p,
    some j,
    d,
    ins.fresh (still_new name p r r' j new lower g),
    inr (h, ins.kept.names p j g.found, λ e. cc),
  );
}

-- The parent's logger is in the heap.
parent_in_heap :
    (p : Bytes) (r r' : Registry) (j : ℕ)
    → Got p r (j, r')
    → (q : ℕ) → some j ≡ some q
    → q < length r'.heap
parent_in_heap p r r' j g q e =
    let (l, here, named) = g.valid.listed p j g.found in
    subst (λ k. k < length r'.heap) (some-injective j q e) (fetch-lt r'.heap j l here)

Returns : ℕ → Bytes → Registry → Type 0
Returns fuel name r = (out : ℕ × Registry) × (get_logger fuel name r ≡ some out) × Got name r out

get_missing :
    (fuel : ℕ) (name : Bytes) (r : Registry)
    → IsValid r
    → depth name < suc fuel
    → find r.loggers name ≡ none
    → ((q : Bytes) → depth q < fuel → Returns fuel q r)
    → (p : Bytes) → parent_name_for (suc (length name)) name ≡ some p
    → Parent name p
    → Returns (suc fuel) name r
unfolding get_logger Returns
get_missing fuel name r ok room new above [] ran d = (
  insert name none r,
  rw (new, get_logger, ran),
  Got-top name r d new (insert-Inserted name none r ok (λ p e. cc)),
)
get_missing fuel name r ok room new above (c ∷ cs) ran d =
    let lower = parent_depth d (λ e. cc) (root_alone name (c ∷ cs) ran (λ e. cc)) in
    let ((j, r'), sub, g) = above (c ∷ cs) (omega (arith, room, lower)) in
    (
      insert name (some j) r',
      rw (new, get_logger, ran, sub),
      Got-child name (c ∷ cs) r r' j d (λ e. cc) new lower g
          (insert-Inserted name (some j) r' g.valid (parent_in_heap (c ∷ cs) r r' j g)),
    )

-- On a valid registry, with fuel for the nesting of its calls, `get_logger` returns. The registry is
-- valid afterwards; the loggers and the names that it had are unchanged; it lists the name at the
-- cell that is returned. A name that was listed gets the logger that was listed; a new name gets a
-- new logger, whose parent is the logger listed under the parent's name.
pub get_logger_total :
    (fuel : ℕ) (name : Bytes) (r : Registry)
    → IsValid r
    → depth name < fuel
    → (out : ℕ × Registry) × (get_logger fuel name r ≡ some out) × Got name r out
unfolding get_logger Returns
get_logger_total zero name r ok room = absurd (omega arith)
get_logger_total (suc fuel) name r ok room = elim (Option-cases (find r.loggers name)) [
  | inr (i, there) ↦ ((i, r), rw (there, get_logger), Got-present name r i ok there)
  | inl new ↦
      let (p, ran, d) = parent_total (suc (length name)) name (omega arith) in
      get_missing fuel name r ok room new (λ q. get_logger_total fuel q r ok) p ran d
]
