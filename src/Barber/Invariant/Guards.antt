-- ===== src/Barber/Invariant/Guards.antt =====
-- What the moves of client.c need, and the lists and predicates that they change.
use agh_operating_systems.Base.{
  ℕ, ◌+◌, ◌<◌, ◌≡◌, ◌≢◌, refl, List, [], ◌∷◌, ◌++◌, length, if◌then◌else◌, ◌==◌, arith,
}
use agh_operating_systems.Barber.{
  BarberState, sleeping, Shop, Barber, b_sleep, b_asleep, b_woken, b_seated, b_cut, b_cutting,
  b_finishing, b_left, b_peek, b_invite, b_inviting, b_pop, b_call, b_await, b_sat, Client,
  ClientMove, enter, wake, go_to_queue, be_called, stand_up, come_up, be_finished,
}
use agh_operating_systems.Barber.Invariant.{
  own_keys, coming, seated, is_sleeping, finishing, times, Comes,
}

-- The premise of a move.
abbrev pub Guard : {i : ℕ} {m m' : Shop} {q q' : Client} → ClientMove own_keys i m q m' q' → Type 0
Guard {m} (enter h) = 0 < m.state_lock
Guard {m} (wake h) = m.b_state ≡ sleeping
Guard {m} (go_to_queue ne h) = (m.b_state ≢ sleeping) × (0 < m.queue_lock)
Guard {i} {m} (be_called e h) = 0 < m.invited i
Guard {m} (stand_up h) = 0 < m.state_lock
Guard {m} (come_up h) = 0 < m.state_lock
Guard {m} (be_finished h) = 0 < m.finished
Guard _ = Unit

pub guard : {i : ℕ} {m m' : Shop} {q q' : Client} (mv : ClientMove own_keys i m q m' q') → Guard mv
guard (enter h) = h
guard (wake h) = h
guard (go_to_queue ne h) = (ne, h)
guard (be_called e h) = h
guard (stand_up h) = h
guard (come_up h) = h
guard (be_finished h) = h
guard _ = tt

pub is_sleeping-zero : (state : BarberState) → state ≢ sleeping → is_sleeping state ≡ 0
is_sleeping-zero state ne = ground arith

pub times-append :
    (i client : ℕ) (queue : List ℕ)
    → times i (queue ++ client ∷ []) ≡ times i queue + (if client == i then 1 else 0)
times-append i client [] = omega arith
times-append i client (head ∷ queue) = ground (arith, times-append i client queue)

pub length-append_one :
    (client : ℕ) (queue : List ℕ) → length (queue ++ client ∷ []) ≡ length queue + 1
length-append_one client [] = refl
length-append_one client (head ∷ queue) = ground (arith, length-append_one client queue)

pub Comes-map :
    (n : ℕ) (invited invited' : ℕ → ℕ) (clients clients' : ℕ → Client) (b : Barber)
    → Comes n invited clients b
    → (finishing b ≡ 0
        → (next : ℕ) → 0 < invited next + coming (clients next) + seated (clients next)
        → 0 < invited' next + coming (clients' next) + seated (clients' next))
    → Comes n invited' clients' b
Comes-map n invited invited' clients clients' (b_await next) (lt, h) k = (lt, k refl next h)
Comes-map n invited invited' clients clients' (b_sat next) (lt, h) k = (lt, k refl next h)
Comes-map n invited invited' clients clients' b_sleep h k = tt
Comes-map n invited invited' clients clients' b_asleep h k = tt
Comes-map n invited invited' clients clients' b_woken h k = tt
Comes-map n invited invited' clients clients' b_seated h k = tt
Comes-map n invited invited' clients clients' b_cut h k = tt
Comes-map n invited invited' clients clients' b_cutting h k = tt
Comes-map n invited invited' clients clients' b_finishing h k = tt
Comes-map n invited invited' clients clients' b_left h k = tt
Comes-map n invited invited' clients clients' b_peek h k = tt
Comes-map n invited invited' clients clients' b_invite h k = tt
Comes-map n invited invited' clients clients' b_inviting h k = tt
Comes-map n invited invited' clients clients' b_pop h k = tt
Comes-map n invited invited' clients clients' (b_call next) h k = tt
