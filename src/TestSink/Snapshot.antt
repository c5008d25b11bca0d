-- ===== src/TestSink/Snapshot.antt =====
-- What a snapshot shows.
use sim_logger.Prelude.{
  ◌≤◌, List, [], ◌∷◌, ◌++◌, ◌≡◌, refl, sym, ap, ◌∙◌, arith, append-nil, append_assoc, length,
}
use sim_logger.TestSink.{
  TestSink, Call, writes, flushes, clears, write, flush, clear, size, snapshot, run,
}

module _ {R : Type 0} where
  -- None of the calls clears.
  abbrev pub IsKeeping : List (Call R) → Type 0
  IsKeeping [] = 0 ≤ 0
  IsKeeping (writes r ∷ cs) = IsKeeping cs
  IsKeeping (flushes ∷ cs) = IsKeeping cs
  IsKeeping (clears ∷ cs) = 1 ≤ 0

  -- The records among the calls.
  abbrev pub written : List (Call R) → List R
  written [] = []
  written (writes r ∷ cs) = r ∷ written cs
  written (flushes ∷ cs) = written cs
  written (clears ∷ cs) = written cs

  run-append : (cs ds : List (Call R)) (s : TestSink R) → run (cs ++ ds) s ≡ run ds (run cs s)
  unfolding run
  run-append [] ds s = refl
  run-append (writes r ∷ cs) ds s = run-append cs ds (write r s)
  run-append (flushes ∷ cs) ds s = run-append cs ds (flush s)
  run-append (clears ∷ cs) ds s = run-append cs ds (clear s)

  run-kept :
      (cs : List (Call R)) (s : TestSink R)
      → IsKeeping cs
      → (run cs s).records ≡ s.records ++ written cs
  unfolding run write flush
  run-kept [] s k = sym (append-nil s.records)
  run-kept (writes r ∷ cs) s k =
      run-kept cs (write r s) k ∙ append_assoc s.records (r ∷ []) (written cs)
  run-kept (flushes ∷ cs) s k = run-kept cs s k
  run-kept (clears ∷ cs) s k = absurd (omega arith)

  -- After any calls, a clear and then calls that do not clear, the snapshot holds exactly the records
  -- written since the clear, in the order of the calls, and the size is their number.
  pub snapshot-written :
      (before after : List (Call R)) (s : TestSink R)
      → IsKeeping after
      → (snapshot (run (before ++ (clears ∷ after)) s) ≡ written after)
        × (size (run (before ++ (clears ∷ after)) s) ≡ length (written after))
  unfolding snapshot size run clear
  snapshot-written before after s k =
      let kept =
        ap (λ t. t.records) (run-append before (clears ∷ after) s)
        ∙ run-kept after (clear (run before s)) k in
      (kept, ap (λ rs. length rs) kept)
