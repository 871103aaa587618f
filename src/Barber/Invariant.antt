-- ===== src/Barber/Invariant.antt =====
-- What the moves of lab7/GeislerWojciech/cw07/zad1 keep, and the counts that say it.
pub mod Barbering
pub mod Guards
pub mod Visiting
use agh_operating_systems.Base.{
  ℕ, zero, suc, ◌+◌, ◌≤◌, ◌<◌, ◌≡◌, Option, none, some, List, [], ◌∷◌, false, length, if◌then◌else◌,
  ◌==◌,
}
use agh_operating_systems.Base.Family.{total}
use agh_operating_systems.Base.Int.{pos}
use agh_operating_systems.Barber.{
  Keys, BarberState, sleeping, inviting, cutting, waking, unset, Shop, Barber, b_sleep, b_asleep,
  b_woken, b_seated, b_cut, b_cutting, b_finishing, b_left, b_peek, b_invite, b_inviting, b_pop,
  b_call, b_await, b_sat, Client, c_outside, c_enter, c_inside, c_at_queue, c_queued, c_waking,
  c_called, c_sitting, c_in_chair, c_done, c_gone,
}

-- A semaphore of its own for every client, and none of them that of barber.c: the invariant is stated for
-- these keys.
abbrev pub own_keys : Keys
own_keys = record { key = λ i. i; is_main = λ k. false }

-- Whether a client has the state lock.
abbrev pub has_state : Client → ℕ
has_state (c_inside r) = 1
has_state (c_at_queue r) = 1
has_state (c_sitting r) = 1
has_state _ = 0

abbrev pub has_queue : Client → ℕ
has_queue (c_at_queue r) = 1
has_queue _ = 0

-- On the way to the chair.
abbrev pub coming : Client → ℕ
coming (c_waking r) = 1
coming (c_called r) = 1
coming (c_sitting r) = 1
coming _ = 0

abbrev pub seated : Client → ℕ
seated (c_in_chair r) = 1
seated _ = 0

-- With a haircut, and still in the chair.
abbrev pub leaving : Client → ℕ
leaving (c_done r) = 1
leaving _ = 0

abbrev pub queued : Client → ℕ
queued (c_queued r) = 1
queued _ = 0

-- The same of the barber.
abbrev pub b_has_state : Barber → ℕ
b_has_state b_sleep = 1
b_has_state b_cut = 1
b_has_state b_peek = 1
b_has_state b_invite = 1
b_has_state _ = 0

abbrev pub b_has_queue : Barber → ℕ
b_has_queue b_pop = 1
b_has_queue _ = 0

abbrev pub is_sleeping : BarberState → ℕ
is_sleeping sleeping = 1
is_sleeping _ = 0

abbrev pub is_waking : BarberState → ℕ
is_waking waking = 1
is_waking _ = 0

-- How many clients are between the call for them and the end of `client_sit`.
abbrev pub expects : Barber → BarberState → ℕ
expects b_asleep state = is_waking state
expects b_woken state = 1
expects b_seated state = 1
expects b_cut state = 1
expects b_cutting state = 1
expects b_finishing state = 1
expects (b_await client) state = 1
expects (b_sat client) state = 1
expects _ state = 0

-- Whether the barber has seen that the client sits.
abbrev pub taken : Barber → ℕ
taken b_seated = 1
taken b_cut = 1
taken b_cutting = 1
taken b_finishing = 1
taken (b_sat client) = 1
taken _ = 0

abbrev pub finishing : Barber → ℕ
finishing b_finishing = 1
finishing _ = 0

-- What `customer_avail` is.
abbrev pub woken : Barber → BarberState → ℕ
woken b_asleep state = is_waking state
woken _ state = 0

-- 0 where `b_state` is what it can be.
abbrev pub mismatch : Barber → BarberState → ℕ
mismatch b_asleep sleeping = 0
mismatch b_asleep waking = 0
mismatch b_asleep _ = 1
mismatch _ state = is_sleeping state

-- Whether the barber has seen the queue empty.
abbrev pub quiet : Barber → BarberState → ℕ
quiet b_sleep state = 1
quiet _ state = is_sleeping state

abbrev pub needs_queue : Barber → ℕ
needs_queue b_invite = 1
needs_queue b_inviting = 1
needs_queue b_pop = 1
needs_queue _ = 0

-- How often a client is in the queue.
abbrev pub times : ℕ → List ℕ → ℕ
times i [] = 0
times i (client ∷ queue) = (if client == i then 1 else 0) + times i queue

-- Whether the barber has taken client `i` from the queue and not yet called it.
abbrev pub calls : ℕ → Barber → ℕ
calls i (b_call client) = if client == i then 1 else 0
calls i _ = 0

-- The client that the barber waits for comes, or sits.
abbrev pub Comes : ℕ → (ℕ → ℕ) → (ℕ → Client) → Barber → Type 0
Comes n invited clients (b_await client) =
    (client < n) × (0 < invited client + coming (clients client) + seated (clients client))
Comes n invited clients (b_sat client) =
    (client < n) × (0 < invited client + coming (clients client) + seated (clients client))
Comes n invited clients _ = Unit

-- The part of the invariant that is counts.
pub record Counts (n : ℕ) (m : Shop) (b : Barber) (clients : ℕ → Client) : Type 0 where
  pub state_one : m.state_lock + b_has_state b + total has_state n clients ≡ 1
  pub queue_one : m.queue_lock + b_has_queue b + total has_queue n clients ≡ 1
  pub one_client :
      total coming n clients
        + total seated n clients
        + total leaving n clients
        + total (λ v. v) n m.invited
        + m.left
      ≡ expects b m.b_state
  pub chair : m.current_seated + taken b ≡ total seated n clients + total leaving n clients + m.left
  pub done : m.finished + total leaving n clients + m.left ≡ finishing b
  pub avail : m.customer_avail ≡ woken b m.b_state
  pub states : mismatch b m.b_state ≡ 0
  pub needed : needs_queue b ≤ length m.queue

pub record Inv (n : ℕ) (m : Shop) (b : Barber) (clients : ℕ → Client) : Type 0 where
  pub counts : Counts n m b clients
  pub sits :
      (i : ℕ) → i < n → 0 < seated (clients i) + leaving (clients i) → m.seated_client ≡ some i
  pub empty : total seated n clients + total leaving n clients ≡ 0 → m.seated_client ≡ none
  pub comes : Comes n m.invited clients b
  pub gone : (i : ℕ) → n ≤ i → clients i ≡ c_gone
  pub waits : (i : ℕ) → times i m.queue + calls i b + m.invited i ≡ queued (clients i)
  pub idle : 0 < quiet b m.b_state → m.queue ≡ []
  pub awake : (i : ℕ) → i < n → 0 < has_queue (clients i) → is_sleeping m.b_state ≡ 0
  pub room : (k : ℕ) → m.chairs ≡ pos k → length m.queue ≤ k
