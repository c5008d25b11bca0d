-- ===== src/RotatingSink/Archives.antt =====
-- What becomes of the files that rotations make, and of those that were there before.
use sim_logger.Prelude.{
  ℕ, ◌≤◌, List, [], ◌∷◌, ◌++◌, none, some, ◌≡◌, ◌≢◌, ◌⊎◌, inl, inr, sym, ap, ◌∙◌, subst, arith,
  Bool-cases, append_assoc, Bytes, bytes_eq, bytes_eq_iff,
}
use sim_logger.Disk.{File, get, text_of}
use sim_logger.RotatingSink.Shift.{IsPrunable, Survives, Moves, Shift, stays, moves}

-- A file that a rotation made: its name, and its text when the base file was moved to that name.
pub record Archive : Type 0 where
  pub name : Bytes
  pub text : Bytes

-- The texts one after the other.
abbrev pub texts : List Archive → Bytes
texts [] = []
texts (a ∷ more) = a.text ++ texts more

pub data IsNamed (m : Bytes) : List Archive → Type 0 where
  this : {a : Archive} {more : List Archive} → a.name ≡ m → IsNamed m (a ∷ more)
  further : {a : Archive} {more : List Archive} → IsNamed m more → IsNamed m (a ∷ more)

-- There was no file of this name, or one that the pruning may delete.
abbrev pub WasFree : ℕ → Bytes → Bytes → List File → Type 0
WasFree max base m fs = (get m fs ≡ none) ⊎ IsPrunable max base m

-- There is no file of this name but for an archive.
abbrev pub IsGone : Bytes → List Archive → List File → Type 0
IsGone m archives fs' = (get m fs' ≡ none) ⊎ IsNamed m archives

-- A file has its text still, or the pruning may delete it, and it is gone or the name is taken again
-- by one of these archives.
abbrev pub IsKept : ℕ → Bytes → Bytes → Bytes → List Archive → List File → Type 0
IsKept max base m c archives fs' =
    (get m fs' ≡ some c) ⊎ (IsPrunable max base m × IsGone m archives fs')

-- Each archive has another name than the base file, of a file that was not there or may be pruned,
-- and is kept behind its rotation; a later archive has the same name only if it may be pruned.
abbrev pub AllKept : ℕ → Bytes → List File → List File → List Archive → Type 0
AllKept max base fs fs' [] = 0 ≤ 0
AllKept max base fs fs' (a ∷ more) =
    (base ≢ a.name)
    × WasFree max base a.name fs
    × (IsNamed a.name more → IsPrunable max base a.name)
    × IsKept max base a.name a.text more fs'
    × AllKept max base fs fs' more

-- From `fs` to `fs'` the text `t` was added to the log; no other file has changed, but for those
-- pruned, and no other was made.
pub record Log (max : ℕ) (base t : Bytes) (fs fs' : List File) : Type 0 where
  pub archives : List Archive
  pub kept : AllKept max base fs fs' archives
  pub log : texts archives ++ text_of base fs' ≡ text_of base fs ++ t
  pub old : (m c : Bytes) → base ≢ m → get m fs ≡ some c → IsKept max base m c archives fs'
  pub absent : (m : Bytes) → base ≢ m → get m fs ≡ none → IsGone m archives fs'

same_or_other : (n m : Bytes) → (n ≡ m) ⊎ (n ≢ m)
same_or_other n m = elim (Bool-cases (bytes_eq n m)) [
  | inl y ↦ inl ((bytes_eq_iff n m).0 y)
  | inr x ↦ inr (λ z. cc ((bytes_eq_iff n m).1 z))
]

still_free :
    (max : ℕ) (base a n : Bytes) {fs gs : List File}
    → Shift max base a fs gs
    → base ≢ n
    → WasFree max base n gs
    → WasFree max base n fs
still_free max base a n sh h (inr p) = inr p
still_free max base a n (stays grown others) h (inl e) = inl (sym (others n h) ∙ e)
still_free max base a n {fs = fs} (moves v) h (inl e) = elim (same_or_other v.name n) [
  | inl y ↦ inl (ap (λ k. get k fs) (sym y) ∙ v.free)
  | inr x ↦ elim (v.others n h x) [ inl same ↦ inl (sym same ∙ e) | inr (p, gone) ↦ inr p ]
]

all_kept :
    (max : ℕ) (base a : Bytes) {fs gs : List File} (hs : List File) (more : List Archive)
    → Shift max base a fs gs
    → AllKept max base gs hs more
    → AllKept max base fs hs more
all_kept max base a hs [] sh kept = omega arith
all_kept max base a hs (x ∷ more) sh (apart, free, once, it, kept) = (
  apart,
  still_free max base a x.name sh apart free,
  once,
  it,
  all_kept max base a hs more sh kept,
)

further-IsGone :
    (m : Bytes) (a : Archive) (more : List Archive) (fs : List File)
    → IsGone m more fs
    → IsGone m (a ∷ more) fs
further-IsGone m a more fs (inl e) = inl e
further-IsGone m a more fs (inr n) = inr (further n)

further-IsKept :
    (max : ℕ) (base m c : Bytes) (a : Archive) (more : List Archive) (fs : List File)
    → IsKept max base m c more fs
    → IsKept max base m c (a ∷ more) fs
further-IsKept max base m c a more fs (inl e) = inl e
further-IsKept max base m c a more fs (inr (p, gone)) = inr (p, further-IsGone m a more fs gone)

-- A file that one write keeps, and the writes after it.
survivor :
    (max : ℕ) (base t m c : Bytes) {gs hs : List File} (l : Log max base t gs hs)
    → base ≢ m
    → Survives max base m (some c) gs
    → IsKept max base m c l.archives hs
survivor max base t m c l h (inl same) = l.old m c h same
survivor max base t m c l h (inr (p, gone)) = inr (p, l.absent m h gone)

absentee :
    (max : ℕ) (base t m : Bytes) {gs hs : List File} (l : Log max base t gs hs)
    → base ≢ m
    → Survives max base m none gs
    → IsGone m l.archives hs
absentee max base t m l h (inl same) = l.absent m h same
absentee max base t m l h (inr (p, gone)) = l.absent m h gone

-- One write, and the writes after it.
Log-stays :
    (max : ℕ) (base a t : Bytes) {fs gs hs : List File}
    → text_of base gs ≡ text_of base fs ++ a
    → ((m : Bytes) → base ≢ m → get m gs ≡ get m fs)
    → Log max base t gs hs
    → Log max base (a ++ t) fs hs
Log-stays max base a t {fs = fs} {hs = hs} grown others l = record {
  archives = l.archives;
  kept = all_kept max base a hs l.archives (stays grown others) l.kept;
  log = l.log ∙ ap (λ x. x ++ t) grown ∙ append_assoc (text_of base fs) a t;
  old = λ m c h e. l.old m c h (others m h ∙ e);
  absent = λ m h e. l.absent m h (others m h ∙ e);
}

AllKept-WasFree :
    (max : ℕ) (base n : Bytes) (gs hs : List File) (more : List Archive)
    → AllKept max base gs hs more
    → IsNamed n more
    → WasFree max base n gs
AllKept-WasFree max base n gs hs [] kept named = elim named [ ]
AllKept-WasFree max base n gs hs (a ∷ more) (apart, free, x, it, kept) (this e) =
    subst (λ m. WasFree max base m gs) e free
AllKept-WasFree max base n gs hs (a ∷ more) (apart, free, x, it, kept) (further named) =
    AllKept-WasFree max base n gs hs more kept named

Survives-IsPrunable :
    (max : ℕ) (base n c : Bytes) (gs : List File)
    → Survives max base n (some c) gs
    → WasFree max base n gs
    → IsPrunable max base n
Survives-IsPrunable max base n c gs (inr (p, gone)) free = p
Survives-IsPrunable max base n c gs (inl here) (inr p) = p
Survives-IsPrunable max base n c gs (inl here) (inl none_here) = cc (here, none_here)

Log-moves :
    (max : ℕ) (base a t : Bytes) {fs gs hs : List File}
    → Moves max base a fs gs
    → Log max base t gs hs
    → Log max base (a ++ t) fs hs
Log-moves max base a t {fs = fs} {gs = gs} {hs = hs} v l =
    let made : Archive = record { name = v.name; text = text_of base fs } in
    record {
      archives = made ∷ l.archives;
      kept = (
        v.apart,
        inl v.free,
        λ named.
            Survives-IsPrunable max base v.name (text_of base fs) gs v.kept
              (AllKept-WasFree max base v.name gs hs l.archives l.kept named),
        survivor max base t v.name (text_of base fs) l v.apart v.kept,
        all_kept max base a hs l.archives (moves v) l.kept,
      );
      log =
          append_assoc (text_of base fs) (texts l.archives) (text_of base hs)
          ∙ ap (λ x. text_of base fs ++ x) (l.log ∙ ap (λ x. x ++ t) v.begun);
      old = λ m c h e.
          let other : v.name ≢ m = λ z. cc (ap (λ k. get k fs) z ∙ e, v.free) in
          further-IsKept max base m c made l.archives hs (
            survivor max base t m c l h
              (subst (λ o. Survives max base m o gs) e (v.others m h other)));
      absent = λ m h e. elim (same_or_other v.name m) [
        | inl y ↦ inr (this y)
        | inr other ↦ further-IsGone m made l.archives hs (
            absentee max base t m l h
              (subst (λ o. Survives max base m o gs) e (v.others m h other)))
      ];
    }

pub Log-cons :
    (max : ℕ) (base a t : Bytes) {fs gs hs : List File}
    → Shift max base a fs gs
    → Log max base t gs hs
    → Log max base (a ++ t) fs hs
Log-cons max base a t (stays grown others) l = Log-stays max base a t grown others l
Log-cons max base a t (moves v) l = Log-moves max base a t v l
