-- ===== src/Logger/Emit.antt =====
-- What `log` does to the sinks: every effective sink gets the record once, whatever others throw.
use native.Mathlib.Nat.{zero-add, add_assoc}
use sim_logger.Prelude.{
  ℕ, ◌+◌, ◌%◌, ◌<◌, Bool, true, false, List, [], ◌∷◌, ◌++◌, map, some, ◌≡◌, ◌≢◌, refl, ap, ap₂, inl,
  inr, ◌∙◌, sym, arith, append_assoc, append-nil, if◌then◌else◌, Bool-cases, ltb,
}
use sim_logger.Level.{Level, severity, is_at_least}
use sim_logger.Sink.{SinkPtr, Sinks}
use sim_logger.Logger.{
  Logger, Heap, u64_mod, fetch, modify, effective_level, effective_sinks, effective_immediate_flush,
  emit_to, emit_all, log,
}
use sim_logger.Logger.Effective.{IsHierarchy, DecidesLevel, DecidesSinks, DecidesFlush, inherit_iff}

-- The test at the top of `log`.
pub guard-is_at_least :
    (m v : Level) → ltb (severity m) (severity v) ≡ (if is_at_least m v then false else true)
unfolding is_at_least
guard-is_at_least m v = grind arith

pub data SinkEvent (R : Type 0) : Type 0 where
  written : SinkPtr → R → SinkEvent R
  flushed : SinkPtr → SinkEvent R

module _ {R : Type 0} where
  -- The writes and the flushes among the calls that the sinks received.
  abbrev pub writes_of : List (SinkEvent R) → List (SinkPtr × R)
  writes_of [] = []
  writes_of (written s r ∷ cs) = (s, r) ∷ writes_of cs
  writes_of (flushed s ∷ cs) = writes_of cs

  abbrev pub flushes_of : List (SinkEvent R) → List SinkPtr
  flushes_of [] = []
  flushes_of (written s r ∷ cs) = flushes_of cs
  flushes_of (flushed s ∷ cs) = s ∷ flushes_of cs

  writes_of-append :
      (xs ys : List (SinkEvent R)) → writes_of (xs ++ ys) ≡ writes_of xs ++ writes_of ys
  writes_of-append [] ys = refl
  writes_of-append (written s r ∷ xs) ys = ap (◌∷◌ (s, r)) (writes_of-append xs ys)
  writes_of-append (flushed s ∷ xs) ys = writes_of-append xs ys

  flushes_of-append :
      (xs ys : List (SinkEvent R)) → flushes_of (xs ++ ys) ≡ flushes_of xs ++ flushes_of ys
  flushes_of-append [] ys = refl
  flushes_of-append (written s r ∷ xs) ys = flushes_of-append xs ys
  flushes_of-append (flushed s ∷ xs) ys = ap (◌∷◌ s) (flushes_of-append xs ys)

-- Sinks of which nothing is known but the calls that they have received; whether a call throws may
-- depend on all of these.
module _ {R : Type 0} (throws : List (SinkEvent R) → SinkEvent R → Bool) where
  abbrev pub recording : Sinks R (List (SinkEvent R))
  recording = record {
    write = λ s r w. (throws w (written s r), w ++ (written s r ∷ []));
    flush = λ s w. (throws w (flushed s), w ++ (flushed s ∷ []));
  }

  -- The number of calls that throw, of those made after the calls `w`.
  abbrev pub thrown : List (SinkEvent R) → List (SinkEvent R) → ℕ
  thrown w [] = 0
  thrown w (c ∷ cs) = (if throws w c then 1 else 0) + thrown (w ++ (c ∷ [])) cs

  thrown-append :
      (w xs ys : List (SinkEvent R)) → thrown w (xs ++ ys) ≡ thrown w xs + thrown (w ++ xs) ys
  thrown-append w [] ys = rw (append-nil, zero-add)
  thrown-append w (c ∷ xs) ys = rw (thrown-append (w ++ (c ∷ [])) xs ys, append_assoc, add_assoc)

  -- The wrapping counter over one sink and the ones after it.
  count_on :
      (w xs ys : List (SinkEvent R)) (threw : Bool) (w' : List (SinkEvent R)) (n : ℕ)
      → w' ≡ w ++ xs
      → thrown w xs ≡ (if threw then 1 else 0)
      → ((if threw then (n + 1) % u64_mod else n) + thrown w' ys) % u64_mod
        ≡ (n + thrown w (xs ++ ys)) % u64_mod
  count_on w xs ys true w' n e f = rw (thrown-append w xs ys, f, e) (omega arith)
  count_on w xs ys false w' n e f = rw (thrown-append w xs ys, f, e) (omega arith)

  threw_once :
      (w : List (SinkEvent R)) (c : SinkEvent R) → throws w c ≡ true → thrown w (c ∷ []) ≢ 0
  threw_once w c e z = absurd (omega (arith, rw e at z))

  both_quiet :
      (w xs ys w' : List (SinkEvent R))
      → w' ≡ w ++ xs
      → thrown w (xs ++ ys) ≡ 0
      → (thrown w xs ≡ 0) × (thrown w' ys ≡ 0)
  both_quiet w xs ys w' e z = (
    omega (arith, z, thrown-append w xs ys),
    ap (λ v. thrown v ys) e ∙ omega (arith, z, thrown-append w xs ys),
  )

  -- The calls that the body of the loop makes.
  record Attempt (do_flush : Bool) (r : R) (s : SinkPtr) (w : List (SinkEvent R))
      (out : Bool × List (SinkEvent R)) : Type 0 where
    added : List (SinkEvent R)
    calls : out.1 ≡ w ++ added
    writes_one : writes_of added ≡ (s, r) ∷ []
    flushes_none : do_flush ≡ false → flushes_of added ≡ []
    flushes_one : do_flush ≡ true → thrown w added ≡ 0 → flushes_of added ≡ s ∷ []
    failure : thrown w added ≡ (if out.0 then 1 else 0)

  emit_to-Attempt :
      (do_flush : Bool) (r : R) (s : SinkPtr) (w : List (SinkEvent R))
      → Attempt do_flush r s w (emit_to recording do_flush r s w)
  unfolding emit_to
  emit_to-Attempt do_flush r s w = elim (Bool-cases (throws w (written s r))) [
    | inl threw ↦ rw threw (record {
      added = written s r ∷ [];
      calls = refl;
      writes_one = refl;
      flushes_none = λ _. refl;
      flushes_one = λ on none_threw. absurd (threw_once w (written s r) threw none_threw);
      failure = rw threw;
    })
    | inr fine ↦ rw fine (elim (Bool-cases do_flush) [
      | inl on ↦ rw on (record {
        added = written s r ∷ flushed s ∷ [];
        calls = append_assoc w (written s r ∷ []) (flushed s ∷ []);
        writes_one = refl;
        flushes_none = λ e. cc;
        flushes_one = λ _ _. refl;
        failure = rw fine (omega arith);
      })
      | inr off ↦ rw off (record {
        added = written s r ∷ [];
        calls = refl;
        writes_one = refl;
        flushes_none = λ _. refl;
        flushes_one = λ e none_threw. cc;
        failure = rw fine;
      })
    ])
  ]

  -- The calls that one pass over the sinks adds.
  pub record Emitted (do_flush : Bool) (r : R) (ss : List SinkPtr) (w : List (SinkEvent R)) (n : ℕ)
      (out : List (SinkEvent R) × ℕ) : Type 0 where
    pub added : List (SinkEvent R)
    pub calls : out.0 ≡ w ++ added
    pub writes_all : writes_of added ≡ map (λ s. (s, r)) ss
    pub flushes_none : do_flush ≡ false → flushes_of added ≡ []
    pub flushes_all : do_flush ≡ true → thrown w added ≡ 0 → flushes_of added ≡ ss
    pub failures : out.1 ≡ (n + thrown w added) % u64_mod

  emit_all-Emitted :
      (do_flush : Bool) (r : R) (ss : List SinkPtr) (w : List (SinkEvent R)) (n : ℕ)
      → n < u64_mod
      → Emitted do_flush r ss w n (emit_all recording do_flush r ss w n)
  unfolding emit_all
  emit_all-Emitted do_flush r [] w n small = record {
    added = [];
    calls = sym (append-nil w);
    writes_all = refl;
    flushes_none = λ _. refl;
    flushes_all = λ _ _. refl;
    failures = omega arith;
  }
  emit_all-Emitted do_flush r (s ∷ ss) w n small =
      let a = emit_to-Attempt do_flush r s w in
      let (threw, w') = emit_to recording do_flush r s w in
      let e =
        emit_all-Emitted do_flush r ss w' (if threw then (n + 1) % u64_mod else n) (ground arith) in
      record {
        added = a.added ++ e.added;
        calls = e.calls ∙ ap (λ l. l ++ e.added) a.calls ∙ append_assoc w a.added e.added;
        writes_all = writes_of-append a.added e.added ∙ ap₂ ◌++◌ a.writes_one e.writes_all;
        flushes_none = λ off.
            flushes_of-append a.added e.added ∙ ap₂ ◌++◌ (a.flushes_none off) (e.flushes_none off);
        flushes_all = λ on quiet.
            let (quiet_here, quiet_later) = both_quiet w a.added e.added w' a.calls quiet in
            flushes_of-append a.added e.added
            ∙ ap₂ ◌++◌ (a.flushes_one on quiet_here) (e.flushes_all on quiet_later);
        failures = e.failures ∙ count_on w a.added e.added threw w' n a.calls a.failure;
      }

  -- A call of `log` on a logger of a hierarchy, whose failure counter is below 2 ^ 64 and whose
  -- effective settings are the level `v`, the sinks `ss` and the flush setting `b`. A record below
  -- `v` changes nothing: no sink is called and no counter moves. Any other record is written to each
  -- of the sinks once and in their order, whichever calls throw; with the flush setting, if no call
  -- throws, each sink is flushed once, in their order, and without it none is; and the logger, whose
  -- settings stay, counts the calls that threw, modulo 2 ^ 64.
  pub log_emits :
      (h : Heap) (i : ℕ) (l : Logger) (v : Level) (ss : List SinkPtr) (b : Bool) (level : Level)
      (r : R) (w : List (SinkEvent R))
      → IsHierarchy h
      → fetch h i ≡ some l
      → DecidesLevel h l v
      → DecidesSinks h l ss
      → DecidesFlush h l b
      → l.sink_failures_count < u64_mod
      → (is_at_least level v ≡ false → log recording h i l level r w ≡ some (h, w))
        × (is_at_least level v ≡ true
            → (out : List (SinkEvent R) × ℕ) × (log recording h i l level r w
                ≡ some (modify h i (λ l'. record l' { sink_failures_count = out.1 }), out.0))
              × Emitted b r ss w l.sink_failures_count out)
  unfolding log is_at_least effective_level effective_sinks effective_immediate_flush
  log_emits h i l v ss b level r w ok here dv ds db small =
      let ev = (inherit_iff _ _ _ h i l v ok here).1 dv in
      let es = (inherit_iff _ _ _ h i l ss ok here).1 ds in
      let eb = (inherit_iff _ _ _ h i l b ok here).1 db in
      (
        λ low. rw (ev, log, guard-is_at_least level v, low),
        λ high. (
          emit_all recording b r ss w l.sink_failures_count,
          rw (ev, es, eb, log, guard-is_at_least level v, high),
          emit_all-Emitted b r ss w l.sink_failures_count small,
        ),
      )
