-- ===== src/Buffer/Threads/Tests.antt =====
-- Runs of one producer and one consumer of lab9/GeislerWojciech/cw09/zad1/main.c.
use agh_operating_systems.Base.{
  ℕ, ◌≤◌, ◌≡◌, refl, true, false, some, none, List, [], ◌∷◌, ◌++◌, length, arith, update,
}
use agh_operating_systems.Base.Int.{pos}
use agh_operating_systems.Buffer.{Line, Config, init, bigger, insert, remove, matching, is_full}
use agh_operating_systems.Buffer.Threads.{
  Pc, p_head, p_lock, p_test, c_head, c_lock, c_test, Shared, Move, read, p_acquire, store, c_enter,
  c_acquire, fetch, System, spawn, start_mem, Reach, start, later, pick,
}
use agh_operating_systems.Buffer.Threads.Invariant.{
  holding, pending, stored_lines, stored_by, fetched_lines, PrintsMatching,
}
use agh_operating_systems.Buffer.Threads.Order.{
  stored-eq-fetched, producer_complete, printed_matching, mutual_exclusion, holder_moves,
}

abbrev sample : Config
sample = record { buffor_size = 2; thread_ttl = pos 0; threshold = pos 1; search_mode = bigger }

abbrev file : List Line
file = (97 ∷ 98 ∷ []) ∷ (99 ∷ []) ∷ []

-- The producer has taken the mutex with the first line.
abbrev locked : System
locked = record {
  mem = record (start_mem sample) { mutex = some 0 };
  pc =
      update (update (spawn 1 1 file) 0 (p_lock (97 ∷ 98 ∷ []) ((99 ∷ []) ∷ []))) 0
        (p_test (97 ∷ 98 ∷ []) ((99 ∷ []) ∷ []));
}

locked_reached : Reach sample 1 1 file locked
locked_reached = later (later start (pick 0 refl read)) (pick 0 refl (p_acquire refl))

-- The first line has gone through the buffer, and is printed.
abbrev passed : System
passed = record {
  mem = record {
    buff = record { slots = none ∷ none ∷ []; next_read = 1; next_write = 1; filled_slots = 0 };
    mutex = none;
    running = true;
    stored = (0, 97 ∷ 98 ∷ []) ∷ [];
    fetched = (97 ∷ 98 ∷ [], true) ∷ [];
  };
  pc =
      update (update (update (update locked.pc 0 (p_head ((99 ∷ []) ∷ []))) 1 c_lock) 1 c_test) 1
        c_head;
}

passed_reached : Reach sample 1 1 file passed
unfolding init insert remove matching is_full
passed_reached =
    later
      (later (later (later locked_reached (pick 0 refl (store _ refl refl))) (pick 1 refl c_enter))
        (pick 1 refl (c_acquire refl)))
      (pick 1 refl (fetch (97 ∷ 98 ∷ []) true _ (omega arith) refl))

stored-eq-fetched_example :
    (rest : List Line) × (stored_lines passed.mem.stored ≡ fetched_lines passed.mem.fetched ++ rest)
    × (length rest ≤ 2)
stored-eq-fetched_example = stored-eq-fetched (omega arith) (omega arith) passed_reached

producer_complete_example : stored_by 0 passed.mem.stored ++ pending (passed.pc 0) ≡ file
producer_complete_example =
    producer_complete (omega arith) (omega arith) passed_reached 0 (omega arith)

printed_matching_example : PrintsMatching sample passed.mem.fetched
printed_matching_example = printed_matching (omega arith) (omega arith) passed_reached

mutual_exclusion_example : ◌≡◌ {A = ℕ} 0 0
mutual_exclusion_example = mutual_exclusion (omega arith) (omega arith) locked_reached 0 0 refl refl

holder_moves_example :
    (m : Shared) × (q : Pc) × Move sample 0 locked.mem (locked.pc 0) m q × (holding q ≡ false)
holder_moves_example = holder_moves (omega arith) (omega arith) locked_reached 0 refl
