-- ===== src/Barber.antt =====
-- The sleeping barber of lab7/GeislerWojciech/cw07/zad1: barber.c and client.c (zad2 has the same states
-- on POSIX semaphores). The barber and `n` clients are interleaved; a move is what a process does from
-- one `semwait` to the next, since `b_state` and the queue are only touched under BARBER_STATE_LOCK and
-- QUEUE_LOCK; the accesses to `seated_client` that no lock guards start a move of their own. The queue is
-- the list of the first `queue_length` entries; the child Array has the code's operations on the array.
-- The semaphore of a client is found by a key that `ftok` makes of the low 8 bits of its pid, so that
-- clients may share one, or use the set of barber.c itself; Keys says which do.
pub mod Array
pub mod Invariant
pub mod View
pub mod Safety
pub mod Progress
mod Tests
use agh_operating_systems.Base.{
  ℕ, zero, suc, ◌+◌, ◌-◌, ◌<◌, ◌≡◌, ◌≢◌, Bool, true, false, Option, none, some, List, [], ◌∷◌, ◌++◌,
  length, update, if◌then◌else◌, ltb, ◌==◌,
}
use agh_operating_systems.Base.Int.{ℤ, pos, eqb_ℤ}

-- `barber_state`, with the value that fresh shared memory has.
pub data BarberState : Type 0 where
  sleeping inviting cutting waking unset : BarberState

-- `key i` is the key of the semaphore of client `i`, and `is_main` tells that of the set of barber.c.
pub record Keys : Type 0 where
  pub key : ℕ → ℕ
  pub is_main : ℕ → Bool

-- The keys that `get_ipc_key` makes; `ftok` is the library's, for the home directory and a project id.
-- FTOK_PROJ_ID is 1.
abbrev pub get_ipc_key : (ftok pid : ℕ → ℕ) → Keys
get_ipc_key ftok pid = record { key = λ i. ftok (pid i); is_main = λ k. k == ftok 1 }

-- `state` and the values of the semaphores; `invited` are those of clients, by their keys. Clients are numbered from 0;
-- `none` is an empty chair.
pub record Shop : Type 0 where
  pub b_state : BarberState
  pub seated_client : Option ℕ
  pub chairs : ℤ
  pub queue : List ℕ
  pub queue_lock : ℕ
  pub state_lock : ℕ
  pub customer_avail : ℕ
  pub current_seated : ℕ
  pub finished : ℕ
  pub left : ℕ
  pub invited : ℕ → ℕ

-- Where the barber stands.
pub data Barber : Type 0 where
  b_sleep : Barber  -- start of `barber_sleep`, with the state lock
  b_asleep : Barber  -- before `semwait(CUSTOMER_AVAIL)`
  b_woken : Barber  -- before `semwait(CURRENT_SEATED)` there
  b_seated : Barber  -- at the assertion, before `semwait(BARBER_STATE_LOCK)`
  b_cut : Barber  -- start of `barber_cut`, with the state lock
  b_cutting : Barber  -- before `semsignal(FINISHED)`
  b_finishing : Barber  -- before `semwait(LEFT)`
  b_left : Barber  -- at the assertion that follows
  b_peek : Barber  -- before `peek_queue`, with the state lock
  b_invite : Barber  -- start of `barber_invite`, with the state lock
  b_inviting : Barber  -- before `semwait(QUEUE_LOCK)`
  b_pop : Barber  -- before `pop_client`, with the queue lock
  b_call : (next_client : ℕ) → Barber  -- before `semsignal(client_sem, CLIENT_INVITED)`
  b_await : (next_client : ℕ) → Barber  -- before `semwait(CURRENT_SEATED)` there
  b_sat : (next_client : ℕ) → Barber  -- at the assertion that follows

-- Where a client stands, with its `repeats`, which `main` reads as a number of at least 0 here.
pub data Client : Type 0 where
  c_outside : (repeats : ℕ) → Client
  c_enter : (repeats : ℕ) → Client  -- before `semwait(BARBER_STATE_LOCK)` in `client_come_in`
  c_inside : (repeats : ℕ) → Client  -- before the test of `b_state`, with the state lock
  c_at_queue : (repeats : ℕ) → Client  -- before the test of the queue, with both locks
  c_queued : (repeats : ℕ) → Client  -- before `semwait(client_sem, CLIENT_INVITED)`
  c_waking : (repeats : ℕ) → Client  -- before the second `semwait(BARBER_STATE_LOCK)`
  c_called : (repeats : ℕ) → Client  -- before that of `client_enqueue`
  c_sitting : (repeats : ℕ) → Client  -- start of `client_sit`, with the state lock
  c_in_chair : (repeats : ℕ) → Client  -- before `semwait(FINISHED)`
  c_done : (repeats : ℕ) → Client  -- before the chair is left
  c_gone : Client

-- What `peek_queue` tells the barber, and `pop_client` on a queue that is not empty.
abbrev pub next_state : List ℕ → Barber
next_state [] = b_sleep
next_state (client ∷ queue) = b_invite

-- A call through the key of the set of barber.c is no move: what it does there is not modelled.
pub data BarberMove (keys : Keys) (m : Shop) : Barber → Shop → Barber → Type 0 where
  fall_asleep :
      BarberMove keys m b_sleep
        (record m { b_state = sleeping; state_lock = m.state_lock + 1 })
        b_asleep
  wake_up :
      0 < m.customer_avail
      → BarberMove keys m b_asleep (record m { customer_avail = m.customer_avail - 1 }) b_woken
  see_seated :
      0 < m.current_seated
      → BarberMove keys m b_woken (record m { current_seated = m.current_seated - 1 }) b_seated
  start_cut :
      0 < m.state_lock
      → BarberMove keys m b_seated (record m { state_lock = m.state_lock - 1 }) b_cut
  cut :
      BarberMove keys m b_cut
        (record m { b_state = cutting; state_lock = m.state_lock + 1 })
        b_cutting
  finish : BarberMove keys m b_cutting (record m { finished = m.finished + 1 }) b_finishing
  see_left : 0 < m.left → BarberMove keys m b_finishing (record m { left = m.left - 1 }) b_left
  look_up :
      0 < m.state_lock
      → BarberMove keys m b_left (record m { state_lock = m.state_lock - 1 }) b_peek
  peek : BarberMove keys m b_peek m (next_state m.queue)
  invite :
      BarberMove keys m b_invite
        (record m { b_state = inviting; state_lock = m.state_lock + 1 })
        b_inviting
  lock_queue :
      0 < m.queue_lock
      → BarberMove keys m b_inviting (record m { queue_lock = m.queue_lock - 1 }) b_pop
  pop :
      {client : ℕ} {rest : List ℕ}
      → m.queue ≡ client ∷ rest
      → BarberMove keys m b_pop
          (record m { queue = rest; queue_lock = m.queue_lock + 1 })
          (b_call client)
  call :
      {client : ℕ}
      → keys.is_main (keys.key client) ≡ false
      → BarberMove keys m
          (b_call client)
          (record m {
            invited = update m.invited (keys.key client) (m.invited (keys.key client) + 1);
          })
          (b_await client)
  see_sat :
      {client : ℕ}
      → 0 < m.current_seated
      → BarberMove keys m
          (b_await client)
          (record m { current_seated = m.current_seated - 1 })
          (b_sat client)
  cut_next :
      {client : ℕ}
      → 0 < m.state_lock
      → BarberMove keys m (b_sat client) (record m { state_lock = m.state_lock - 1 }) b_cut

-- A move of client `i`. `push_client` behind the 50 entries of the array, which `chairs` below 0 lead to, is
-- no move: it is undefined in C. The client removes its semaphore after the invitation; the one that is
-- made in its place starts at 0. What the removal does to another client at the same semaphore is not
-- modelled.
pub data ClientMove (keys : Keys) (i : ℕ) (m : Shop) : Client → Shop → Client → Type 0 where
  go : {r : ℕ} → ClientMove keys i m (c_outside (suc r)) m (c_enter (suc r))
  go_away : ClientMove keys i m (c_outside zero) m c_gone
  enter :
      {r : ℕ}
      → 0 < m.state_lock
      → ClientMove keys i m (c_enter r) (record m { state_lock = m.state_lock - 1 }) (c_inside r)
  wake :
      {r : ℕ}
      → m.b_state ≡ sleeping
      → ClientMove keys i m
          (c_inside r)
          (record m {
            b_state = waking;
            customer_avail = m.customer_avail + 1;
            state_lock = m.state_lock + 1;
          })
          (c_waking r)
  go_to_queue :
      {r : ℕ}
      → m.b_state ≢ sleeping
      → 0 < m.queue_lock
      → ClientMove keys i m (c_inside r) (record m { queue_lock = m.queue_lock - 1 }) (c_at_queue r)
  turn_away :
      {r : ℕ}
      → eqb_ℤ (pos (length m.queue)) m.chairs ≡ true
      → ClientMove keys i m
          (c_at_queue r)
          (record m { state_lock = m.state_lock + 1; queue_lock = m.queue_lock + 1 })
          (c_outside r)
  enqueue :
      {r : ℕ}
      → eqb_ℤ (pos (length m.queue)) m.chairs ≡ false
      → length m.queue < 50
      → ClientMove keys i m
          (c_at_queue r)
          (record m {
            queue = m.queue ++ i ∷ [];
            state_lock = m.state_lock + 1;
            queue_lock = m.queue_lock + 1;
          })
          (c_queued r)
  be_called :
      {r : ℕ}
      → keys.is_main (keys.key i) ≡ false
      → 0 < m.invited (keys.key i)
      → ClientMove keys i m
          (c_queued r)
          (record m { invited = update m.invited (keys.key i) 0 })
          (c_called r)
  stand_up :
      {r : ℕ}
      → 0 < m.state_lock
      → ClientMove keys i m (c_called r) (record m { state_lock = m.state_lock - 1 }) (c_sitting r)
  come_up :
      {r : ℕ}
      → 0 < m.state_lock
      → ClientMove keys i m (c_waking r) (record m { state_lock = m.state_lock - 1 }) (c_sitting r)
  sit :
      {r : ℕ}
      → ClientMove keys i m
          (c_sitting r)
          (record m {
            seated_client = some i;
            state_lock = m.state_lock + 1;
            current_seated = m.current_seated + 1;
          })
          (c_in_chair r)
  be_finished :
      {r : ℕ}
      → 0 < m.finished
      → ClientMove keys i m (c_in_chair r) (record m { finished = m.finished - 1 }) (c_done r)
  leave :
      {r : ℕ}
      → ClientMove keys i m
          (c_done r)
          (record m { seated_client = none; left = m.left + 1 })
          (c_outside (r - 1))

pub record System : Type 0 where
  pub shop : Shop
  pub barber : Barber
  pub clients : ℕ → Client

-- What `main` of barber.c sets up, with the barber in `barber_sleep`.
abbrev pub opened : ℤ → Shop
opened chairs = record {
  b_state = unset;
  seated_client = none;
  chairs = chairs;
  queue = [];
  queue_lock = 1;
  state_lock = 0;
  customer_avail = 0;
  current_seated = 0;
  finished = 0;
  left = 0;
  invited = λ i. 0;
}

-- `n` clients as client.c spawns them; a number from `n` on names none.
abbrev pub spawn : ℕ → ℕ → ℕ → Client
spawn n repeats i = if ltb i n then c_outside repeats else c_gone

pub data Step (keys : Keys) (n : ℕ) (s : System) : System → Type 0 where
  barber_step :
      {m : Shop} {b : Barber}
      → BarberMove keys s.shop s.barber m b
      → Step keys n s (record s { shop = m; barber = b })
  client_step :
      (i : ℕ) {m : Shop} {q : Client}
      → i < n
      → ClientMove keys i s.shop (s.clients i) m q
      → Step keys n s (record s { shop = m; clients = update s.clients i q })

pub data Reach (keys : Keys) (n repeats : ℕ) (chairs : ℤ) : System → Type 0 where
  start :
      Reach keys n repeats chairs
        (record { shop = opened chairs; barber = b_sleep; clients = spawn n repeats })
  later :
      {s t : System}
      → Reach keys n repeats chairs s
      → Step keys n s t
      → Reach keys n repeats chairs t
