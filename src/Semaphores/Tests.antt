-- ===== src/Semaphores/Tests.antt =====
-- A run of lab9/GeislerWojciech/cw09/zad2/main.c with one slot, two producers and one consumer.
use mathlib.Core.List.{Perm}
use agh_operating_systems.Base.{
  ℕ, ◌+◌, ◌≤◌, ◌<◌, ◌≡◌, refl, none, List, [], ◌∷◌, ◌++◌, length, get_or, arith,
}
use agh_operating_systems.Base.Int.{pos}
use agh_operating_systems.Buffer.{Line, Config, bigger}
use agh_operating_systems.Semaphores.{
  System, Step, pick, Reach, start, later, read, c_enter, p_acquire, p_begin, p_lock, p_found,
  store, start_mem, spawn, initial_permits,
}
use agh_operating_systems.Semaphores.Contents.{contents}
use agh_operating_systems.Semaphores.Invariant.{holds}
use agh_operating_systems.Semaphores.Safety.{nothing_lost, slot_exclusion, search_has_slot}
use agh_operating_systems.Semaphores.Progress.{no_deadlock}

abbrev c : Config
c = record { buffor_size = 1; thread_ttl = pos 0; threshold = pos 0; search_mode = bigger }

abbrev input : List Line
input = (65 ∷ []) ∷ []

abbrev first : System
first = record { mem = start_mem c; pc = spawn 2 input }

-- The first producer and the consumer have come to their semaphores.
waiting : (s : System) × Reach c 2 1 input s
waiting =
    (_, later (later start (pick 0 refl (omega arith) read)) (pick 2 refl (omega arith) c_enter))

-- The first producer has the token, and the lock of the slot.
looking : (s : System) × Reach c 2 1 input s
unfolding waiting initial_permits
looking = (
  _,
  later
      (later (later (waiting.1) (pick 0 refl (omega arith) (p_acquire (omega arith))))
        (pick 0 refl (omega arith) p_begin))
      (pick 0 refl (omega arith) (p_lock (omega arith))),
)

-- It has written its line.
written : (s : System) × Reach c 2 1 input s
unfolding looking initial_permits
written = (
  _,
  later (later (looking.1) (pick 0 refl (omega arith) (p_found refl)))
      (pick 0 refl (omega arith) store),
)

nothing_lost_example :
    Perm ((65 ∷ []) ∷ []) (written.0.mem.fetched ++ contents written.0.mem.slots)
    × (length (contents written.0.mem.slots) ≤ 1)
unfolding written initial_permits
nothing_lost_example = nothing_lost c 2 1 input written.0 (omega arith) written.1

slot_exclusion_run : holds 0 (looking.0.pc 0) + holds 0 (looking.0.pc 2) ≤ 1
slot_exclusion_run =
    slot_exclusion c 2 1 input looking.0 (omega arith) looking.1 0 2 0 (omega arith) (omega arith)
      (omega arith)

search_has_slot_example : (slot : ℕ) × (slot < 1) × (get_or looking.0.mem.slots slot none ≡ none)
unfolding looking initial_permits
search_has_slot_example =
    search_has_slot c 2 1 input looking.0 (omega arith) looking.1 0 (omega arith) (omega arith)

no_deadlock_example : (t : System) × Step c 3 waiting.0 t
unfolding waiting initial_permits
no_deadlock_example =
    no_deadlock c 2 1 input waiting.0 0 2 (65 ∷ []) [] (omega arith) (omega arith) waiting.1 refl
      (omega arith) (omega arith) refl refl
