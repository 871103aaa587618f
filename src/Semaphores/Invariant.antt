-- ===== src/Semaphores/Invariant.antt =====
-- What every move of a thread of lab9/GeislerWojciech/cw09/zad2/main.c keeps: who has the lock of a slot,
-- what the semaphores count, and where the lines are.
pub mod Moves
use mathlib.Core.List.{Perm, perm_middle}
use mathlib.Core.List.Perm.{rfl, cons, trans, symm, append_left}
use agh_operating_systems.Base.{
  ℕ, ◌+◌, ◌≤◌, ◌<◌, ◌≡◌, refl, ◌≢◌, ap, Option, none, some, List, ◌++◌, length, length-set, get_or,
  set, update, if◌then◌else◌, ◌==◌, arith, length-replicate,
}
use native.Mathlib.Nat.{mod-lt}
use agh_operating_systems.Base.Arrays.{get_or-set_ne}
use agh_operating_systems.Base.Family.{total, total-update, total_two, total_zero, update_all}
use agh_operating_systems.Buffer.{Line, Slots, Config}
use agh_operating_systems.Semaphores.{
  Pc, p_head, p_wait, p_start, p_try, p_test, p_claim, p_unlock, p_post, c_head, c_wait, c_start,
  c_try, c_test, c_claim, c_unlock, c_post, ended, Shared, Move, p_acquire, p_lock, p_skip, p_found,
  store, p_release, c_acquire, c_lock, c_skip, c_found, fetch, exit, initial_permits, start_mem,
  spawn, System, Step, pick, Reach, start, later,
}
use agh_operating_systems.Semaphores.Contents.{
  contents, contents-replicate, contents_put, contents_take, length-contents_put,
  length-contents_take,
}

-- Whether a thread has the lock of slot `j`.
abbrev pub holds : ℕ → Pc → ℕ
holds j (p_test line rest p) = if p == j then 1 else 0
holds j (p_claim line rest p) = if p == j then 1 else 0
holds j (p_unlock rest p) = if p == j then 1 else 0
holds j (c_test p) = if p == j then 1 else 0
holds j (c_claim p) = if p == j then 1 else 0
holds j (c_unlock p) = if p == j then 1 else 0
holds j _ = 0

-- Threads that an empty slot is kept for, which `free_slots` does not count: producers that look for
-- it, and consumers that made it.
abbrev pub spare : Pc → ℕ
spare (p_start line rest) = 1
spare (p_try line rest p) = 1
spare (p_test line rest p) = 1
spare (p_claim line rest p) = 1
spare (c_unlock p) = 1
spare c_post = 1
spare _ = 0

-- The same with filled slots and `filled_slots`.
abbrev pub due : Pc → ℕ
due (p_unlock rest p) = 1
due (p_post rest) = 1
due c_start = 1
due (c_try p) = 1
due (c_test p) = 1
due (c_claim p) = 1
due _ = 0

-- The position that a thread is at lies in the array.
abbrev pub InRange : ℕ → Pc → Type 0
InRange n (p_try line rest p) = p < n
InRange n (p_test line rest p) = p < n
InRange n (p_claim line rest p) = p < n
InRange n (p_unlock rest p) = p < n
InRange n (c_try p) = p < n
InRange n (c_test p) = p < n
InRange n (c_claim p) = p < n
InRange n (c_unlock p) = p < n
InRange n _ = Unit

-- What a thread has found out about the slot whose lock it has.
abbrev pub Claims : Slots → Pc → Type 0
Claims slots (p_claim line rest p) = get_or slots p none ≡ none
Claims slots (c_claim p) = (line : Line) × (get_or slots p none ≡ some line)
Claims slots _ = Unit

-- A write to a slot that a thread has no lock of.
pub Claims-set :
    (slots : Slots) (p : ℕ) (v : Option Line) (q : Pc)
    → holds p q ≡ 0
    → Claims slots q
    → Claims (set slots p v) q
Claims-set slots p v (p_claim line rest r) h e = ground (arith, get_or-set_ne slots p r v none)
Claims-set slots p v (c_claim r) h (line, e) =
    (line, ground (arith, get_or-set_ne slots p r v none))
Claims-set slots p v (p_head rest) h e = tt
Claims-set slots p v (p_wait line rest) h e = tt
Claims-set slots p v (p_start line rest) h e = tt
Claims-set slots p v (p_try line rest r) h e = tt
Claims-set slots p v (p_test line rest r) h e = tt
Claims-set slots p v (p_unlock rest r) h e = tt
Claims-set slots p v (p_post rest) h e = tt
Claims-set slots p v c_head h e = tt
Claims-set slots p v c_wait h e = tt
Claims-set slots p v c_start h e = tt
Claims-set slots p v (c_try r) h e = tt
Claims-set slots p v (c_test r) h e = tt
Claims-set slots p v (c_unlock r) h e = tt
Claims-set slots p v c_post h e = tt
Claims-set slots p v ended h e = tt

pub initial_permits-le : (size : ℕ) → initial_permits size ≤ size
unfolding initial_permits
initial_permits-le size = ground arith

pub record Inv (c : Config) (n : ℕ) (m : Shared) (pc : ℕ → Pc) : Type 0 where
  pub size : 0 < c.buffor_size
  pub len : length m.slots ≡ c.buffor_size
  pub read_in : m.next_read < c.buffor_size
  pub write_in : m.next_write < c.buffor_size
  pub in_range : (i : ℕ) → InRange c.buffor_size (pc i)
  pub locked : (j : ℕ) → m.locks j + total (holds j) n pc ≡ 1
  pub free :
      m.free_slots + total spare n pc + length (contents m.slots) ≡ initial_permits c.buffor_size
  pub filled : length (contents m.slots) ≡ m.filled_slots + total due n pc
  pub claims : (i : ℕ) → i < n → Claims m.slots (pc i)
  pub kept : Perm m.stored (m.fetched ++ contents m.slots)
