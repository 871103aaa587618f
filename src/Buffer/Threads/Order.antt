-- ===== src/Buffer/Threads/Order.antt =====
-- What holds of every run of the threads of lab9/GeislerWojciech/cw09/zad1/main.c.
use agh_operating_systems.Base.{
  ℕ, ◌<◌, ◌≤◌, ◌≡◌, refl, Bool, true, false, some, none, Option, List, [], ◌∷◌, ◌++◌, length, arith,
}
use agh_operating_systems.Buffer.{Line, Config, is_full, matching}
use agh_operating_systems.Buffer.Queue.{
  Represents, is_full_iff, insert_refines, remove_refines, remove_exits,
}
use agh_operating_systems.Buffer.Threads.{
  Pc, p_test, c_test, Shared, Move, p_block, store, c_block, fetch, exit, System, Reach,
}
use agh_operating_systems.Buffer.Threads.Invariant.{
  holding, pending, stored_lines, stored_by, fetched_lines, PrintsMatching, Reach-Inv, Stocked,
}

module _ {c : Config} {p k : ℕ} {input : List Line} {s : System} (some_slots : 0 < c.buffor_size)
    (small : c.buffor_size < 2147483648) (run : Reach c p k input s) where
  -- In every reachable state the lines stored so far, in order, are the lines fetched so far, in
  -- order, followed by at most `buffor_size` lines that are still in the buffer: no line is lost,
  -- doubled or overtaken between producers and consumers.
  pub stored-eq-fetched :
      (rest : List Line) × (stored_lines s.mem.stored ≡ fetched_lines s.mem.fetched ++ rest)
      × (length rest ≤ c.buffor_size)
  stored-eq-fetched =
      let v = Reach-Inv some_slots small run in
      (v.stock.queue, v.stock.order, v.stock.represents.fits)

  -- In every reachable state, what producer `i` has stored followed by what it has still to store
  -- is the whole input file, in order.
  pub producer_complete : (i : ℕ) → i < p → stored_by i s.mem.stored ++ pending (s.pc i) ≡ input
  producer_complete i h = (Reach-Inv some_slots small run).delivered i h

  -- In every reachable state a fetched line was printed if, and only if, `matching` accepts it.
  pub printed_matching : PrintsMatching c s.mem.fetched
  printed_matching = (Reach-Inv some_slots small run).stock.printed

  -- No two threads are at once between taking and releasing `filled_slots_mutex`.
  pub mutual_exclusion : (i j : ℕ) → holding (s.pc i) ≡ true → holding (s.pc j) ≡ true → i ≡ j
  mutual_exclusion i j hi hj =
      let v = Reach-Inv some_slots small run in cc (v.owner i hi, v.owner j hj)

-- The move of a thread that has the mutex, by what it finds in the buffer.
Move-full :
    {c : Config} (i : ℕ) (m : Shared) (line : Line) (rest : List Line)
    → Stocked c m
    → (full : Bool) → is_full c m.buff ≡ full
    → (m' : Shared) × (q : Pc) × Move c i m (p_test line rest) m' q × (holding q ≡ false)
Move-full i m line rest v true e = (_, _, p_block e, refl)
Move-full {c} i m line rest v false e =
    let (b, stored, w) =
      insert_refines c m.buff v.queue line v.represents
        (ground (arith, is_full_iff c m.buff v.queue v.represents, v.represents.fits)) in
    (_, _, store b e stored, refl)

Move-line :
    {c : Config} (i : ℕ) (m : Shared) (line : Line) (q : List Line)
    → Represents c m.buff (line ∷ q)
    → (o : Option Bool) → matching line c ≡ o
    → (m' : Shared) × (p : Pc) × Move c i m c_test m' p × (holding p ≡ false)
Move-line {c} i m line q v none e =
    (_, _, exit (omega (arith, v.count)) (remove_exits c m.buff line q v e), refl)
Move-line {c} i m line q v (some printed) e =
    let (b, out, w) = remove_refines c m.buff line q printed v e in
    (_, _, fetch line printed b (omega (arith, v.count)) out, refl)

Move-queue :
    {c : Config} (i : ℕ) (m : Shared) (q : List Line)
    → Represents c m.buff q
    → (m' : Shared) × (p : Pc) × Move c i m c_test m' p × (holding p ≡ false)
Move-queue i m [] v = (_, _, c_block v.count, refl)
Move-queue {c} i m (line ∷ q) v = Move-line i m line q v (matching line c) refl

Move-holding :
    {c : Config} (i : ℕ) (m : Shared) (p : Pc)
    → Stocked c m
    → holding p ≡ true
    → (m' : Shared) × (q : Pc) × Move c i m p m' q × (holding q ≡ false)
Move-holding {c} i m (p_test line rest) v h = Move-full i m line rest v (is_full c m.buff) refl
Move-holding i m c_test v h = Move-queue i m v.queue v.represents
Move-holding i m _ v h = cc

-- In every reachable state a thread that has taken `filled_slots_mutex` has a move that ends its
-- critical section, so neither search for a slot goes on for ever.
pub holder_moves :
    {c : Config} {p k : ℕ} {input : List Line} {s : System}
    → 0 < c.buffor_size
    → c.buffor_size < 2147483648
    → Reach c p k input s
    → (i : ℕ) → holding (s.pc i) ≡ true
    → (m : Shared) × (q : Pc) × Move c i s.mem (s.pc i) m q × (holding q ≡ false)
holder_moves {s} h h' run i e = Move-holding i s.mem (s.pc i) (Reach-Inv h h' run).stock e
