-- ===== src/Registry/Insert.antt =====
-- One insertion of `get_logger` into the registry: the section after the parent is known.
use mathlib.Core.Option.{some-injective}
use sim_logger.Prelude.{
  ℕ, zero, suc, ◌<◌, List, [], ◌∷◌, ◌++◌, Option, none, some, ◌≡◌, ◌≢◌, ◌⊎◌, inl, inr, refl, ap,
  sym, ◌∙◌, subst, arith, Bool-cases, Option-cases, length, set, get_elem?-set_ne, Bytes, bytes_eq,
  bytes_eq_iff,
}
use sim_logger.Logger.{Logger, Heap, new_logger, set_parent, fetch}
use sim_logger.Logger.Effective.{IsHierarchy, fetch-lt}
use sim_logger.Registry.{Registry, find, create, emplace, insert}

-- Cells: a new one at the end, and one that is freed.
fetch-append :
    (h : Heap) (c : List (Option Logger)) (i : ℕ) (l : Logger)
    → fetch h i ≡ some l
    → fetch (h ++ c) i ≡ some l
unfolding fetch
fetch-append [] c i l e = cc
fetch-append (x ∷ h) c zero l e = e
fetch-append (x ∷ h) c (suc i) l e = fetch-append h c i l e

fetch_last : (h : Heap) (l : Logger) → fetch (h ++ (some l ∷ [])) (length h) ≡ some l
unfolding fetch
fetch_last [] l = refl
fetch_last (x ∷ h) l = fetch_last h l

-- A cell of the longer heap is the new one or an old one.
fetch-snoc :
    (h : Heap) (n : Logger) (i : ℕ) (l : Logger)
    → fetch (h ++ (some n ∷ [])) i ≡ some l
    → ((i ≡ length h) × (n ≡ l)) ⊎ (fetch h i ≡ some l)
unfolding fetch
fetch-snoc [] n zero l e = inl (refl, some-injective n l e)
fetch-snoc [] n (suc i) l e = inr e
fetch-snoc (x ∷ h) n zero l e = inr e
fetch-snoc (x ∷ h) n (suc i) l e = elim (fetch-snoc h n i l e) [
  | inl (a, b) ↦ inl (ap suc a, b)
  | inr a ↦ inr a
]

fetch-free :
    (h : Heap) (k i : ℕ) (l : Logger) → fetch (set h k none) i ≡ some l → fetch h i ≡ some l
unfolding fetch
fetch-free [] k i l e = e
fetch-free (x ∷ h) zero zero l e = cc
fetch-free (x ∷ h) zero (suc i) l e = e
fetch-free (x ∷ h) (suc k) zero l e = e
fetch-free (x ∷ h) (suc k) (suc i) l e = fetch-free h k i l e

fetch-set_ne : (h : Heap) (k i : ℕ) → k ≢ i → fetch (set h k none) i ≡ fetch h i
unfolding fetch
fetch-set_ne h k i n = rw (get_elem?-set_ne h k i none n, fetch)

-- The registry's invariant: parents come before their children, and every name that the map lists
-- leads to a logger of that name.
pub record IsValid (r : Registry) : Type 0 where
  pub hierarchy : IsHierarchy r.heap
  pub listed :
      (name : Bytes) (i : ℕ)
      → find r.loggers name ≡ some i
      → (l : Logger) × (fetch r.heap i ≡ some l) × (l.name ≡ name)

-- What was there is still there, at its place and unchanged.
pub record Kept (r r' : Registry) : Type 0 where
  pub names : (name : Bytes) (i : ℕ) → find r.loggers name ≡ some i → find r'.loggers name ≡ some i
  pub cells : (i : ℕ) (l : Logger) → fetch r.heap i ≡ some l → fetch r'.heap i ≡ some l

-- The candidate that `get_logger` makes.
abbrev pub candidate : Bytes → Option ℕ → Logger
candidate name parent = set_parent parent (new_logger name)

-- One insertion: the registry lists the name afterwards, at the cell that is returned. A name that
-- was not listed has a new logger with the given parent.
pub record Inserted (name : Bytes) (parent : Option ℕ) (r : Registry) (out : ℕ × Registry)
    : Type 0 where
  pub valid : IsValid out.1
  pub kept : Kept r out.1
  pub found : find out.1.loggers name ≡ some out.0
  pub only :
      (n : Bytes) (j : ℕ) → find out.1.loggers n ≡ some j → (find r.loggers n ≡ some j) ⊎ (n ≡ name)
  pub fresh : find r.loggers name ≡ none → fetch out.1.heap out.0 ≡ some (candidate name parent)

find_head : (name : Bytes) (i : ℕ) (m : List (Bytes × ℕ)) → find ((name, i) ∷ m) name ≡ some i
unfolding find
find_head name i m = rw ((bytes_eq_iff name name).1 refl)

-- Listing a name that was not there.
find_cons :
    (m : List (Bytes × ℕ)) (name n : Bytes) (i j : ℕ)
    → find m name ≡ none
    → find m n ≡ some j
    → find ((name, i) ∷ m) n ≡ some j
unfolding find
find_cons m name n i j new e = elim (Bool-cases (bytes_eq name n)) [
  | inl y ↦ absurd (false_of_some m name n j ((bytes_eq_iff name n).0 y) new e)
  | inr ne ↦ rw ne e
]
  where
    false_of_some :
        (m : List (Bytes × ℕ)) (name n : Bytes) (j : ℕ)
        → name ≡ n
        → find m name ≡ none
        → find m n ≡ some j
        → ⊥
    false_of_some m name n j y new e = cc

find_uncons :
    (m : List (Bytes × ℕ)) (key n : Bytes) (i j : ℕ)
    → find ((key, i) ∷ m) n ≡ some j
    → ((key ≡ n) × (i ≡ j)) ⊎ (find m n ≡ some j)
unfolding find
find_uncons m key n i j e = elim (Bool-cases (bytes_eq key n)) [
  | inl y ↦ inl ((bytes_eq_iff key n).0 y, some-injective i j (rw y at e))
  | inr ne ↦ inr (rw ne at e)
]

name_of : (name : Bytes) (parent : Option ℕ) → (candidate name parent).name ≡ name
unfolding set_parent new_logger
name_of name parent = refl

parent_of : (name : Bytes) (parent : Option ℕ) → (candidate name parent).parent_ptr ≡ parent
unfolding set_parent
parent_of name parent = refl

IsHierarchy-snoc :
    (h : Heap) (name : Bytes) (parent : Option ℕ)
    → IsHierarchy h
    → ((p : ℕ) → parent ≡ some p → p < length h)
    → IsHierarchy (h ++ (some (candidate name parent) ∷ []))
IsHierarchy-snoc h name parent ok below i p l here up =
    elim (fetch-snoc h (candidate name parent) i l here) [
      | inl (at, e) ↦
          subst (λ k. p < k) (sym at)
            (below p (sym (parent_of name parent) ∙ ap (λ l'. l'.parent_ptr) e ∙ up))
      | inr old ↦ ok i p l old up
    ]

fetch-discard :
    (h : Heap) (c : Logger) (i : ℕ) (l : Logger)
    → fetch h i ≡ some l
    → fetch (set (h ++ (some c ∷ [])) (length h) none) i ≡ some l
fetch-discard h c i l e =
    fetch-set_ne (h ++ (some c ∷ [])) (length h) i
      (λ z. absurd (omega (arith, z, fetch-lt h i l e)))
    ∙ fetch-append h (some c ∷ []) i l e

-- The two ways out of the section under the lock.
insert_fresh :
    (name : Bytes) (parent : Option ℕ) (r : Registry)
    → IsValid r
    → ((p : ℕ) → parent ≡ some p → p < length r.heap)
    → find r.loggers name ≡ none
    → Inserted name parent r (insert name parent r)
unfolding insert create emplace
insert_fresh name parent r ok below new =
    rw (new, emplace)
      (record {
        valid = record {
          hierarchy = IsHierarchy-snoc r.heap name parent ok.hierarchy below;
          listed = λ n i e. elim (find_uncons r.loggers name n (length r.heap) i e) [
            | inl (a, b) ↦
                let at_end = fetch_last r.heap (candidate name parent) in
                (
                  candidate name parent,
                  subst
                      (λ k.
                        fetch (r.heap ++ (some (candidate name parent) ∷ [])) k
                        ≡ some (candidate name parent))
                      b at_end,
                  name_of name parent ∙ a,
                )
            | inr old ↦
                let (l, here, same) = ok.listed n i old in
                (l, fetch-append r.heap (some (candidate name parent) ∷ []) i l here, same)
          ];
        };
        kept = record {
          names = λ n i e. find_cons r.loggers name n (length r.heap) i new e;
          cells = λ i l e. fetch-append r.heap (some (candidate name parent) ∷ []) i l e;
        };
        found = find_head name (length r.heap) r.loggers;
        only = λ n j e. elim (find_uncons r.loggers name n (length r.heap) j e) [
          | inl (a, b) ↦ inr (sym a)
          | inr old ↦ inl old
        ];
        fresh = λ _. fetch_last r.heap (candidate name parent);
      })

insert_present :
    (name : Bytes) (parent : Option ℕ) (r : Registry) (k : ℕ)
    → IsValid r
    → ((p : ℕ) → parent ≡ some p → p < length r.heap)
    → find r.loggers name ≡ some k
    → Inserted name parent r (insert name parent r)
unfolding insert create emplace
insert_present name parent r k ok below there =
    rw (there, emplace)
      (record {
        valid = record {
          hierarchy = λ i p l here up.
              IsHierarchy-snoc r.heap name parent ok.hierarchy below i p l
                (fetch-free (r.heap ++ (some (candidate name parent) ∷ [])) (length r.heap) i l
                  here)
                up;
          listed = λ n i e.
              let (l, here, same) = ok.listed n i e in
              (l, fetch-discard r.heap (candidate name parent) i l here, same);
        };
        kept = record {
          names = λ n i e. e;
          cells = λ i l e. fetch-discard r.heap (candidate name parent) i l e;
        };
        found = there;
        only = λ n j e. inl e;
        fresh = λ e. cc;
      })

pub insert-Inserted :
    (name : Bytes) (parent : Option ℕ) (r : Registry)
    → IsValid r
    → ((p : ℕ) → parent ≡ some p → p < length r.heap)
    → Inserted name parent r (insert name parent r)
insert-Inserted name parent r ok below = elim (Option-cases (find r.loggers name)) [
  | inl new ↦ insert_fresh name parent r ok below new
  | inr (k, there) ↦ insert_present name parent r k ok below there
]
