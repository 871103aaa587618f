-- ===== src/Barber/Tests.antt =====
-- A run of lab7/GeislerWojciech/cw07/zad1 with two chairs and two clients of one visit each.
use agh_operating_systems.Base.{ℕ, ◌+◌, ◌%◌, ◌≤◌, ◌<◌, ◌≡◌, refl, [], ◌∷◌, ◌++◌, length, arith}
use agh_operating_systems.Base.Int.{ℤ, pos}
use agh_operating_systems.Barber.{
  Keys, get_ipc_key, System, Step, barber_step, client_step, Reach, start, later, fall_asleep, go,
  enter, wake, come_up, go_to_queue, enqueue,
}
use agh_operating_systems.Barber.Array.{
  ArrayQueue, max_queue, empty_queue, push_client, waiting, IsQueue, Pops, array_refines,
}
use agh_operating_systems.Barber.Invariant.{coming, seated, leaving, queued, times, calls}
use agh_operating_systems.Barber.Safety.{
  BarberAsserts, ClientAsserts, assertions_hold, one_at_chair, queue_exact,
}
use agh_operating_systems.Barber.View.{Apart}
use agh_operating_systems.Barber.Progress.{always_moves}

-- Pids and keys with the low 8 bits of a pid, as `ftok` takes them.
abbrev ftok : ℕ → ℕ
ftok p = p % 256

abbrev pid : ℕ → ℕ
pid i = i + 700

abbrev keys : Keys
keys = get_ipc_key ftok pid

keys-Apart : Apart keys 2
keys-Apart = record { distinct = λ i j li lj e. omega arith; not_main = λ i lt. ground arith }

-- The first client has woken the barber up.
awake : (s : System) × Reach keys 2 1 (pos 2) s
awake = (
  _,
  later
      (later (later (later start (barber_step fall_asleep)) (client_step 0 (omega arith) go))
        (client_step 0 (omega arith) (enter (omega arith))))
      (client_step 0 (omega arith) (wake refl)),
)

-- The second one has gone to the queue.
behind : (s : System) × Reach keys 2 1 (pos 2) s
unfolding awake
behind = (
  _,
  later
      (later
        (later (later (awake.1) (client_step 1 (omega arith) go))
          (client_step 1 (omega arith) (enter (omega arith))))
        (client_step 1 (omega arith) (go_to_queue (λ e. ground arith) (omega arith))))
      (client_step 1 (omega arith) (enqueue refl (omega arith))),
)

-- The first one comes to the chair.
sitting : (s : System) × Reach keys 2 1 (pos 2) s
unfolding behind
sitting = (_, later (behind.1) (client_step 0 (omega arith) (come_up (omega arith))))

assertions_hold_example :
    BarberAsserts sitting.0.shop sitting.0.barber
    × ((i : ℕ) → i < 2 → ClientAsserts sitting.0.shop (sitting.0.clients i))
assertions_hold_example = assertions_hold ftok pid 2 1 2 sitting.0 keys-Apart sitting.1

one_at_chair_example :
    coming (sitting.0.clients 0)
      + seated (sitting.0.clients 0)
      + leaving (sitting.0.clients 0)
      + (coming (sitting.0.clients 1)
          + seated (sitting.0.clients 1)
          + leaving (sitting.0.clients 1))
    ≤ 1
one_at_chair_example =
    one_at_chair ftok pid 2 1 2 sitting.0 keys-Apart sitting.1 0 1 (omega arith) (omega arith)
      (omega arith)

queue_exact_example :
    ((i : ℕ)
      → i < 2
      → times i behind.0.shop.queue + calls i behind.0.barber + behind.0.shop.invited (ftok (pid i))
        ≡ queued (behind.0.clients i))
    × (length behind.0.shop.queue ≤ 2)
queue_exact_example = queue_exact ftok pid 2 1 2 behind.0 keys-Apart behind.1

always_moves_example : (t : System) × Step keys 2 sitting.0 t
unfolding sitting
always_moves_example =
    always_moves ftok pid 2 1 2 sitting.0 keys-Apart (omega arith) sitting.1 0 (λ e. ground arith)

-- Two clients wait.
abbrev two : ArrayQueue
two = push_client (pos 8) (push_client (pos 7) empty_queue)

array_refines_example :
    ((pid : ℤ)
      → 2 < max_queue
      → (waiting (push_client pid two) ≡ waiting two ++ pid ∷ []) × IsQueue (push_client pid two))
    × Pops two
array_refines_example = array_refines two (refl, omega arith)
