-- ===== src/Semaphores/Safety.antt =====
-- What holds in every reachable state of lab9/GeislerWojciech/cw09/zad2/main.c.
use mathlib.Core.List.{Perm}
use agh_operating_systems.Base.{
  ℕ, ◌+◌, ◌≤◌, ◌<◌, ◌≡◌, ◌≢◌, none, some, List, ◌++◌, length, get_or, arith,
}
use agh_operating_systems.Base.Family.{total-ge, total_two}
use agh_operating_systems.Buffer.{Line, Config}
use agh_operating_systems.Semaphores.{
  Pc, p_start, p_try, p_test, c_start, c_try, c_test, System, Reach,
}
use agh_operating_systems.Semaphores.Contents.{contents, contents-le, empty_slot, filled_slot}
use agh_operating_systems.Semaphores.Invariant.{holds, spare, due, initial_permits-le, Inv}
use agh_operating_systems.Semaphores.Invariant.Moves.{Reach-Inv}

-- From taking `free_slots` to finding a slot.
abbrev pub looks_for_empty : Pc → ℕ
looks_for_empty (p_start line rest) = 1
looks_for_empty (p_try line rest p) = 1
looks_for_empty (p_test line rest p) = 1
looks_for_empty _ = 0

abbrev pub looks_for_line : Pc → ℕ
looks_for_line c_start = 1
looks_for_line (c_try p) = 1
looks_for_line (c_test p) = 1
looks_for_line _ = 0

looks_for_empty-le : (q : Pc) → looks_for_empty q ≤ spare q
looks_for_empty-le q = ground arith

looks_for_line-le : (q : Pc) → looks_for_line q ≤ due q
looks_for_line-le q = ground arith

module _ (c : Config) (p k : ℕ) (input : List Line) (s : System) (size : 0 < c.buffor_size)
    (r : Reach c p k input s) where
  inv : Inv c (p + k) s.mem s.pc
  inv = Reach-Inv size r

  -- In every state that any interleaving of the threads reaches, the lines that producers stored are those
  -- that consumers fetched and those in the slots, each as often: although nothing guards the cursors, no
  -- line is overwritten, lost or fetched twice. There are never more lines than slots.
  pub nothing_lost :
      Perm s.mem.stored (s.mem.fetched ++ contents s.mem.slots)
      × (length (contents s.mem.slots) ≤ c.buffor_size)
  nothing_lost = (inv.kept, omega (arith, contents-le s.mem.slots, inv.len))

  -- No two threads have the lock of the same slot.
  pub slot_exclusion :
      (i j slot : ℕ) → i < p + k → j < p + k → i ≢ j → holds slot (s.pc i) + holds slot (s.pc j) ≤ 1
  slot_exclusion i j slot li lj ne =
      omega (arith, total_two (holds slot) (p + k) i j s.pc li lj ne, inv.locked slot)

  -- While a producer goes round the slots, one of them is empty, whatever the other threads do: it never
  -- looks for what is not there.
  pub search_has_slot :
      (i : ℕ)
      → i < p + k
      → 0 < looks_for_empty (s.pc i)
      → (slot : ℕ) × (slot < c.buffor_size) × (get_or s.mem.slots slot none ≡ none)
  search_has_slot i lt h =
      let (slot, l, e) = empty_slot s.mem.slots (
        omega (
          arith,
          inv.free,
          initial_permits-le c.buffor_size,
          inv.len,
          total-ge spare (p + k) i s.pc lt,
          looks_for_empty-le (s.pc i),
        )) in
      (slot, omega (arith, inv.len), e)

  -- The same of a consumer and a slot with a line.
  pub search_has_line :
      (i : ℕ)
      → i < p + k
      → 0 < looks_for_line (s.pc i)
      → (slot : ℕ) × (line : Line) × (slot < c.buffor_size)
        × (get_or s.mem.slots slot none ≡ some line)
  search_has_line i lt h =
      let (slot, line, l, e) = filled_slot s.mem.slots (
        omega (
          arith,
          inv.filled,
          inv.len,
          total-ge due (p + k) i s.pc lt,
          looks_for_line-le (s.pc i),
        )) in
      (slot, line, omega (arith, inv.len), e)
