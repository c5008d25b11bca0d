-- ===== src/Async/Totals.antt =====
-- Totals of an asynchronous sink's records, as lists and numbers.
use mathlib.Core.List.{Sublist}
use mathlib.Core.List.Sublist
use native.Mathlib.Nat.{add-zero}
use sim_logger.Prelude.{
  ℕ, ◌+◌, ◌%◌, List, [], ◌∷◌, ◌++◌, ◌≡◌, ◌≢◌, refl, ap, arith, length, length-append, append-nil,
}
use sim_logger.Queue.{OverflowPolicy, drop_oldest}
use sim_logger.Async.{u64_mod, add_u64}

module _ {A : Type 0} (policy : OverflowPolicy) where
  -- `kept` is what is left of the records `taken` in over `n` writes, and `dropped` the counter of
  -- the rest.
  pub record Totals (dropped : ℕ) (kept taken : List A) (n : ℕ) : Type 0 where
    pub in_order : Sublist kept taken
    pub lossless : policy ≢ drop_oldest → kept ≡ taken
    pub lost : ℕ
    pub total : n ≡ length kept + lost
    pub counted : dropped ≡ lost % u64_mod

  pub Totals-none : Totals 0 [] [] 0
  Totals-none = record {
    in_order = Sublist.refl [];
    lossless = λ _. refl;
    lost = 0;
    total = refl;
    counted = refl;
  }

  pub Totals-take :
      {d : ℕ} {kept taken : List A} {n : ℕ} (r : A)
      → Totals d kept taken n
      → Totals d (kept ++ (r ∷ [])) (taken ++ (r ∷ [])) (n + 1)
  Totals-take {kept = kept} r t = record {
    in_order = Sublist.append t.in_order (Sublist.refl (r ∷ []));
    lossless = λ ne. ap (λ l. l ++ (r ∷ [])) (t.lossless ne);
    lost = t.lost;
    total = omega (arith, t.total, length-append kept (r ∷ []));
    counted = t.counted;
  }

  pub Totals-evict :
      {d : ℕ} {taken : List A} {n : ℕ} (us : List A) (x : A) (vs : List A) (r : A)
      → policy ≡ drop_oldest
      → Totals d (us ++ (x ∷ vs)) taken n
      → Totals (add_u64 d 1) ((us ++ vs) ++ (r ∷ [])) (taken ++ (r ∷ [])) (n + 1)
  Totals-evict us x vs r oldest t = record {
    in_order =
        Sublist.append
          (Sublist.trans (Sublist.append (Sublist.refl us) (Sublist.cons x (Sublist.refl vs)))
            t.in_order)
          (Sublist.refl (r ∷ []));
    lossless = λ ne. absurd (ne oldest);
    lost = t.lost + 1;
    total = omega (
      arith,
      t.total,
      length-append us (x ∷ vs),
      length-append (us ++ vs) (r ∷ []),
      length-append us vs,
    );
    counted = omega (arith, t.counted);
  }

  pub Totals-refuse :
      {d : ℕ} {kept taken : List A} {n : ℕ}
      → Totals d kept taken n
      → Totals (add_u64 d 1) kept (taken ++ []) (n + 1)
  Totals-refuse {taken = taken} t = rw append-nil (record {
    in_order = t.in_order;
    lossless = t.lossless;
    lost = t.lost + 1;
    total = omega (arith, t.total);
    counted = omega (arith, t.counted);
  })

  pub Totals-same :
      {d : ℕ} {kept taken : List A} {n : ℕ}
      → Totals d kept taken n
      → Totals d kept (taken ++ []) (n + 0)
  Totals-same t = rw (append-nil, add-zero) t
