-- ===== src/Registry/Race.antt =====
-- Calls of `get_logger` that race: their critical sections in any order.
use mathlib.Core.Option.{some-injective}
use sim_logger.Prelude.{ℕ, ◌<◌, List, [], ◌∷◌, Option, some, ◌≡◌, sym, ◌∙◌, length, Bytes}
use sim_logger.Logger.{Logger, fetch}
use sim_logger.Registry.{Registry, find, insert}
use sim_logger.Registry.Insert.{IsValid, Kept, insert-Inserted}

-- One answer of a call for a name.
pub record Answer : Type 0 where
  pub name : Bytes
  pub cell : ℕ

-- The answer is one of these.
pub data Among (a : Answer) : List Answer → Type 0 where
  here : {ans : List Answer} → Among a (a ∷ ans)
  later : {b : Answer} {ans : List Answer} → Among a ans → Among a (b ∷ ans)

-- Calls that all missed the name before, so that each inserts: `insert` is the part that they run
-- after they know the parent, which is a logger of the heap. The answers are in the order of the
-- critical sections.
pub data Racing : Registry → List Answer → Registry → Type 0 where
  over : {r : Registry} → Racing r [] r
  then :
      {r r' : Registry} {ans : List Answer} (name : Bytes) (parent : Option ℕ)
      → ((p : ℕ) → parent ≡ some p → p < length r.heap)
      → Racing (insert name parent r).1 ans r'
      → Racing r (record { name = name; cell = (insert name parent r).0 } ∷ ans) r'

record Settled (r : Registry) (ans : List Answer) (r' : Registry) : Type 0 where
  valid : IsValid r'
  kept : Kept r r'
  listed : (a : Answer) → Among a ans → find r'.loggers a.name ≡ some a.cell

first_answer :
    (a : Answer) (name : Bytes) (i : ℕ) (ans : List Answer) (r' : Registry)
    → Among a (record { name = name; cell = i } ∷ ans)
    → find r'.loggers name ≡ some i
    → (Among a ans → find r'.loggers a.name ≡ some a.cell)
    → find r'.loggers a.name ≡ some a.cell
first_answer _ name i ans r' here e f = e
first_answer a name i ans r' (later m) e f = f m

Racing-Settled :
    {r r' : Registry} {ans : List Answer} → IsValid r → Racing r ans r' → Settled r ans r'
Racing-Settled {r = r} ok over = record {
  valid = ok;
  kept = record { names = λ n i e. e; cells = λ i l e. e };
  listed = λ a m. elim m [ ];
}
Racing-Settled {r = r} {r' = r'} ok (then {ans = ans} name parent below more) =
    let ins = insert-Inserted name parent r ok below in
    let rest = Racing-Settled ins.valid more in
    record {
      valid = rest.valid;
      kept = record {
        names = λ n i e. rest.kept.names n i (ins.kept.names n i e);
        cells = λ i l e. rest.kept.cells i l (ins.kept.cells i l e);
      };
      listed = λ a m.
          first_answer a name (insert name parent r).0 ans r' m
            (rest.kept.names name (insert name parent r).0 ins.found) (rest.listed a);
    }

-- Whatever the order in which racing calls of `get_logger` reach the second lock, two that ask for
-- the same name get the same logger: its cell is in the registry at the end, with a live logger of
-- that name.
pub one_logger_per_name :
    (r r' : Registry) (ans : List Answer) (a b : Answer)
    → IsValid r
    → Racing r ans r'
    → Among a ans
    → Among b ans
    → a.name ≡ b.name
    → (a.cell ≡ b.cell)
      × (find r'.loggers a.name ≡ some a.cell)
      × ((l : Logger) × (fetch r'.heap a.cell ≡ some l) × (l.name ≡ a.name))
one_logger_per_name r r' ans a b ok races ma mb same =
    let done = Racing-Settled ok races in
    (
      some-injective a.cell b.cell (sym (done.listed a ma) ∙ (rw same (done.listed b mb))),
      done.listed a ma,
      done.valid.listed a.name a.cell (done.listed a ma),
    )
