-- ===== src/CApi/Handles.antt =====
-- The life of a handle: what `sim_logger_get` returns and what `sim_logger_release` leaves.
use sim_logger.Prelude.{
  ℕ, zero, suc, List, [], ◌∷◌, ◌++◌, Option, none, some, ◌≡◌, ◌≢◌, refl, ap, arith, get_elem?, set,
  length, Bytes, bytes_eq, map, true, Bool-cases, inl, inr,
}
use mathlib.Core.Option.{some-injective}
use sim_logger.Registry.Get.{Got, depth-le, get_logger_total}
use sim_logger.Registry.{find, has_owner}
use sim_logger.Registry.Insert.{IsValid}
use sim_logger.Entry.{text_or_empty}
use sim_logger.CApi.{
  Program, pointers, drop_pointer, guard, dangling, proceeds, registry, sim_logger_get,
  sim_logger_release,
}

guard_end : (hs : List (Option (Option ℕ))) → guard hs (some (length hs)) ≡ dangling
unfolding guard
guard_end [] = refl
guard_end (x ∷ hs) = guard_end hs

guard_last :
    (hs : List (Option (Option ℕ))) (j : ℕ)
    → guard (hs ++ (some (some j) ∷ [])) (some (length hs)) ≡ proceeds j
unfolding guard
guard_last [] j = refl
guard_last (x ∷ hs) j = guard_last hs j

guard_before :
    (hs : List (Option (Option ℕ))) (x : Option (Option ℕ)) (i : ℕ)
    → i ≢ length hs
    → guard (hs ++ (x ∷ [])) (some i) ≡ guard hs (some i)
unfolding guard
guard_before [] x zero h = absurd (h refl)
guard_before [] x (suc i) h = refl
guard_before (y ∷ hs) x zero h = refl
guard_before (y ∷ hs) x (suc i) h = guard_before hs x i (λ e. h (ap (λ k. suc k) e))

guard_deleted : (hs : List (Option (Option ℕ))) (h : ℕ) → guard (set hs h none) (some h) ≡ dangling
unfolding guard
guard_deleted [] h = refl
guard_deleted (x ∷ hs) zero = refl
guard_deleted (x ∷ hs) (suc h) = guard_deleted hs h

guard_kept :
    (hs : List (Option (Option ℕ))) (h i : ℕ)
    → i ≢ h
    → guard (set hs h none) (some i) ≡ guard hs (some i)
unfolding guard
guard_kept [] h i g = refl
guard_kept (x ∷ hs) zero zero g = absurd (g refl)
guard_kept (x ∷ hs) zero (suc i) g = refl
guard_kept (x ∷ hs) (suc h) zero g = refl
guard_kept (x ∷ hs) (suc h) (suc i) g = guard_kept hs h i (λ e. g (ap (λ k. suc k) e))

live_handle :
    (hs : List (Option (Option ℕ))) (h j : ℕ)
    → guard hs (some h) ≡ proceeds j
    → get_elem? hs h ≡ some (some (some j))
unfolding guard
live_handle [] h j e = cc
live_handle (none ∷ hs) zero j e = cc
live_handle (some none ∷ hs) zero j e = cc
live_handle (some (some i) ∷ hs) zero j e = cc
live_handle (x ∷ hs) (suc h) j e = live_handle hs h j e

-- The registry's map keeps the loggers that it lists.
has_owner-listed :
    (m : List (Bytes × ℕ)) (name : Bytes) (others : List ℕ) (j : ℕ)
    → find m name ≡ some j
    → has_owner (map (λ e. e.1) m ++ others) j ≡ true
unfolding find has_owner
has_owner-listed [] name others j e = cc
has_owner-listed ((key, i) ∷ m) name others j e = elim (Bool-cases (bytes_eq key name)) [
  | inl y ↦ ground (arith, some-injective i j (rw y at e))
  | inr n ↦ ground (arith, has_owner-listed m name others j (rw n at e))
]

module _ {W : Type 0} where
  -- A handle `out.0` to the logger that the registry lists under `name` was acquired.
  pub record Acquired (name : Bytes) (s : Program W) (out : ℕ × Program W) : Type 0 where
    pub logger : ℕ
    pub got : Got name (registry s) (logger, registry out.1)
    pub fresh : guard s.handles (some out.0) ≡ dangling
    pub proceeds_to : guard out.1.handles (some out.0) ≡ proceeds logger
    pub other_handles :
        (i : ℕ) → i ≢ out.0 → guard out.1.handles (some i) ≡ guard s.handles (some i)
    pub same_sinks : out.1.process.sinks ≡ s.process.sinks
    pub same_time : out.1.process.time ≡ s.process.time

  -- The handle `h` was released.
  pub record Released (h : ℕ) (s s' : Program W) : Type 0 where
    pub gone : guard s'.handles (some h) ≡ dangling
    pub other_handles : (i : ℕ) → i ≢ h → guard s'.handles (some i) ≡ guard s.handles (some i)
    pub same : s' ≡ record s { handles = s'.handles }

  release-Released :
      (users : List ℕ) (name : Bytes) (h j : ℕ) (s : Program W)
      → guard s.handles (some h) ≡ proceeds j
      → find s.loggers name ≡ some j
      → (s' : Program W) × (sim_logger_release users (some h) s ≡ some s') × Released h s s'
  unfolding sim_logger_release drop_pointer guard
  release-Released users name h j s e listed =
      let there = live_handle s.handles h j e in
      (
        record s { handles = set s.handles h none },
        rw (
          there,
          sim_logger_release,
          has_owner-listed s.loggers name (pointers (set s.handles h none) ++ users) j listed,
        ),
        record {
          gone = guard_deleted s.handles h;
          other_handles = guard_kept s.handles h;
          same = refl;
        },
      )

  -- On a program whose registry is valid, `sim_logger_get` returns a new handle to the logger that
  -- the registry then lists under the name, a null name being the empty one; the registry keeps what
  -- it had, as for `get_logger`, and no other handle, no sink and no time changes. The release of
  -- that handle, at once and whatever shared pointers the program's C++ code holds, is defined, makes
  -- it unusable, and changes no other handle, destroys no logger and changes nothing else.
  pub get_and_release :
      (users : List ℕ) (name : Option Bytes) (s : Program W)
      → IsValid (registry s)
      → (out : ℕ × Program W) × (sim_logger_get name s ≡ some out)
        × Acquired (text_or_empty name) s out
        × ((s' : Program W) × (sim_logger_release users (some out.0) out.1 ≡ some s')
            × Released out.0 out.1 s')
  unfolding sim_logger_get
  get_and_release users name s ok =
      let safe_name = text_or_empty name in
      let ((logger, r), ran, got) =
        get_logger_total (suc (suc (length safe_name))) safe_name (registry s) ok
          (omega (arith, depth-le safe_name)) in
      let out : ℕ × Program W = (
        length s.handles,
        record {
          handles = s.handles ++ (some (some logger) ∷ []);
          loggers = r.loggers;
          process = record s.process { heap = r.heap };
        },
      ) in
      (
        out,
        rw (ran, sim_logger_get),
        record {
          logger = logger;
          got = got;
          fresh = guard_end s.handles;
          proceeds_to = guard_last s.handles logger;
          other_handles = guard_before s.handles (some (some logger));
          same_sinks = refl;
          same_time = refl;
        },
        release-Released users safe_name (length s.handles) logger out.1
            (guard_last s.handles logger) got.found,
      )
