-- ===== src/Barber/Invariant/Barbering.antt =====
-- The moves of barber.c keep the invariant.
use agh_operating_systems.Base.{
  ℕ, ◌+◌, ◌≤◌, ◌<◌, ◌≡◌, ◌≢◌, refl, ap, List, [], ◌∷◌, length, arith, ◌⊎◌, inl, inr,
}
use agh_operating_systems.Base.Family.{total-update, total-ge}
use agh_operating_systems.Base.Int.{pos}
use agh_operating_systems.Barber.{
  Shop, Barber, b_sleep, b_peek, b_invite, b_call, Client, BarberMove, fall_asleep, wake_up,
  see_seated, start_cut, see_left, look_up, peek, lock_queue, pop, call, see_sat, cut_next,
  next_state,
}
use agh_operating_systems.Barber.Invariant.{
  own_keys, has_state, has_queue, queued, is_sleeping, quiet, times, calls, Comes, Counts, Inv,
}

-- The premise of a move.
abbrev Guard : {m m' : Shop} {b b' : Barber} → BarberMove own_keys m b m' b' → Type 0
Guard {m} (wake_up h) = 0 < m.customer_avail
Guard {m} (see_seated h) = 0 < m.current_seated
Guard {m} (start_cut h) = 0 < m.state_lock
Guard {m} (see_left h) = 0 < m.left
Guard {m} (look_up h) = 0 < m.state_lock
Guard {m} (lock_queue h) = 0 < m.queue_lock
Guard {m} (pop {client} {rest} e) = m.queue ≡ client ∷ rest
Guard {m} (see_sat h) = 0 < m.current_seated
Guard {m} (cut_next h) = 0 < m.state_lock
Guard _ = Unit

guard : {m m' : Shop} {b b' : Barber} (mv : BarberMove own_keys m b m' b') → Guard mv
guard (wake_up h) = h
guard (see_seated h) = h
guard (start_cut h) = h
guard (see_left h) = h
guard (look_up h) = h
guard (lock_queue h) = h
guard (pop e) = e
guard (see_sat h) = h
guard (cut_next h) = h
guard _ = tt

-- What `next_state` is for an empty queue and for another one.
next_state-cases :
    (queue : List ℕ)
    → ((queue ≡ []) × (next_state queue ≡ b_sleep))
      ⊎ ((0 < length queue) × (next_state queue ≡ b_invite))
next_state-cases [] = inl (refl, refl)
next_state-cases (client ∷ queue) = inr (omega arith, refl)

BarberMove-sits :
    {m m' : Shop} {b b' : Barber}
    → BarberMove own_keys m b m' b'
    → m'.seated_client ≡ m.seated_client
BarberMove-sits fall_asleep = refl
BarberMove-sits mv = refl

module _ {n : ℕ} {m : Shop} {clients : ℕ → Client} where
  calls-in : {client : ℕ} → Inv n m (b_call client) clients → client < n
  calls-in {client} inv = ground (arith, inv.gone client, inv.waits client)

  pub called-in : {b : Barber} (client : ℕ) → Inv n m b clients → b ≡ b_call client → client < n
  called-in client inv e = ground (arith, inv.gone client, inv.waits client, ap (calls client) e)

  -- The moves but `peek`.
  BarberMove-Counts :
      {b b' : Barber} {m' : Shop}
      → BarberMove own_keys m b m' b'
      → b ≢ b_peek
      → Inv n m b clients
      → Counts n m' b' clients
  BarberMove-Counts peek ne inv = absurd (ne refl)
  BarberMove-Counts (pop {client} {rest} e) ne inv = ground (arith, ap length e)
  BarberMove-Counts (call {client} e) ne inv =
      ground (arith, calls-in inv, total-update (λ v. v) n client m.invited (m.invited client + 1))
  BarberMove-Counts mv ne inv = ground (arith, guard mv)

  BarberMove-waits :
      {b b' : Barber} {m' : Shop}
      → BarberMove own_keys m b m' b'
      → b ≢ b_peek
      → Inv n m b clients
      → (i : ℕ) → times i m'.queue + calls i b' + m'.invited i ≡ queued (clients i)
  BarberMove-waits peek ne inv i = absurd (ne refl)
  BarberMove-waits (pop {client} {rest} e) ne inv i = ground (arith, ap (times i) e, inv.waits i)
  BarberMove-waits (call {client} e) ne inv i = ground (arith, inv.waits i)
  BarberMove-waits mv ne inv i = ground (arith, inv.waits i)

  BarberMove-Comes :
      {b b' : Barber} {m' : Shop}
      → BarberMove own_keys m b m' b'
      → b ≢ b_peek
      → Inv n m b clients
      → Comes n m'.invited clients b'
  BarberMove-Comes peek ne inv = absurd (ne refl)
  BarberMove-Comes (call {client} e) ne inv = ground (arith, calls-in inv)
  BarberMove-Comes (see_sat h) ne inv = inv.comes
  BarberMove-Comes mv ne inv = tt

  BarberMove-idle :
      {b b' : Barber} {m' : Shop}
      → BarberMove own_keys m b m' b'
      → b ≢ b_peek
      → Inv n m b clients
      → 0 < quiet b' m'.b_state
      → m'.queue ≡ []
  BarberMove-idle peek ne inv h = absurd (ne refl)
  BarberMove-idle (pop {client} {rest} e) ne inv h = ground arith
  BarberMove-idle mv ne inv h = ground (arith, inv.idle)

  -- A client at the queue has the state lock, which the barber needs to change `b_state`.
  BarberMove-awake :
      {b b' : Barber} {m' : Shop}
      → BarberMove own_keys m b m' b'
      → Inv n m b clients
      → (i : ℕ) → i < n
      → 0 < has_queue (clients i)
      → is_sleeping m'.b_state ≡ 0
  BarberMove-awake fall_asleep inv i lt h = ground (arith, total-ge has_state n i clients lt)
  BarberMove-awake mv inv i lt h = ground (arith, inv.awake i lt h)

  BarberMove-room :
      {b b' : Barber} {m' : Shop}
      → BarberMove own_keys m b m' b'
      → Inv n m b clients
      → (k : ℕ) → m'.chairs ≡ pos k
      → length m'.queue ≤ k
  BarberMove-room (pop {client} {rest} e) inv k h = ground (arith, ap length e, inv.room k h)
  BarberMove-room mv inv k h = inv.room k h

  peek-Inv :
      (b : Barber)
      → ((m.queue ≡ []) × (b ≡ b_sleep)) ⊎ ((0 < length m.queue) × (b ≡ b_invite))
      → Inv n m b_peek clients
      → Inv n m b clients
  peek-Inv b cases inv = record {
    counts = ground arith;
    sits = inv.sits;
    empty = inv.empty;
    comes = ground arith;
    gone = inv.gone;
    waits = λ i. ground (arith, inv.waits i);
    idle = λ h. ground arith;
    awake = inv.awake;
    room = inv.room;
  }

  BarberMove-Inv :
      {b b' : Barber} {m' : Shop}
      → BarberMove own_keys m b m' b'
      → b ≢ b_peek
      → Inv n m b clients
      → Inv n m' b' clients
  BarberMove-Inv mv ne inv = record {
    counts = BarberMove-Counts mv ne inv;
    sits = λ i lt h. rw (BarberMove-sits mv) (inv.sits i lt h);
    empty = λ h. rw (BarberMove-sits mv) (inv.empty h);
    comes = BarberMove-Comes mv ne inv;
    gone = inv.gone;
    waits = BarberMove-waits mv ne inv;
    idle = BarberMove-idle mv ne inv;
    awake = BarberMove-awake mv inv;
    room = BarberMove-room mv inv;
  }

pub BarberMove-keeps :
    {n : ℕ} {m m' : Shop} {b b' : Barber} {clients : ℕ → Client}
    → BarberMove own_keys m b m' b'
    → Inv n m b clients
    → Inv n m' b' clients
BarberMove-keeps {m = m} peek inv = peek-Inv (next_state m.queue) (next_state-cases m.queue) inv
BarberMove-keeps mv inv = BarberMove-Inv mv (ground arith) inv
