-- ===== src/Barber/Progress.antt =====
-- Whether the barber and the clients of lab7/GeislerWojciech/cw07/zad1 can move.
use agh_operating_systems.Base.{
  ℕ, zero, suc, ◌+◌, ◌≤◌, ◌<◌, ◌≡◌, ◌≢◌, ◌⊎◌, inl, inr, refl, true, false, Bool, List, [], ◌∷◌,
  length, arith, dec_lt,
}
use agh_operating_systems.Base.Family.{total, total-ge, total_found}
use agh_operating_systems.Base.Int.{pos, eqb_ℤ}
use agh_operating_systems.Barber.{
  Keys, get_ipc_key, BarberState, sleeping, inviting, cutting, waking, unset, Shop, Barber, b_sleep,
  b_asleep, b_woken, b_seated, b_cut, b_cutting, b_finishing, b_left, b_peek, b_invite, b_inviting,
  b_pop, b_call, b_await, b_sat, Client, c_outside, c_enter, c_inside, c_at_queue, c_queued,
  c_waking, c_called, c_sitting, c_in_chair, c_done, c_gone, BarberMove, fall_asleep, wake_up,
  see_seated, start_cut, cut, finish, see_left, look_up, peek, invite, lock_queue, pop, call,
  see_sat, cut_next, ClientMove, go, go_away, enter, wake, go_to_queue, turn_away, enqueue,
  be_called, stand_up, come_up, sit, be_finished, leave, System, Step, barber_step, client_step,
  Reach,
}
use agh_operating_systems.Barber.Invariant.{
  has_state, has_queue, coming, seated, leaving, queued, b_has_state, b_has_queue, is_sleeping,
  is_waking, mismatch, needs_queue, Inv,
}
use agh_operating_systems.Barber.Safety.{Reach-Inv, chairs-Reach}
use agh_operating_systems.Barber.Invariant.Barbering.{called-in}
use agh_operating_systems.Barber.View.{Apart, own, view, own-eq}

-- Whether a process waits for the state lock, or for the queue lock.
abbrev needs_state : Client → ℕ
needs_state (c_enter r) = 1
needs_state (c_waking r) = 1
needs_state (c_called r) = 1
needs_state _ = 0

abbrev needs_lock : Client → ℕ
needs_lock (c_inside r) = 1
needs_lock _ = 0

abbrev b_needs_state : Barber → ℕ
b_needs_state b_seated = 1
b_needs_state b_left = 1
b_needs_state (b_sat next) = 1
b_needs_state _ = 0

abbrev b_needs_lock : Barber → ℕ
b_needs_lock b_inviting = 1
b_needs_lock _ = 0

-- The value of the semaphore that the barber waits for, 1 where it waits for none of the three.
abbrev pending : Shop → Barber → ℕ
pending m b_asleep = m.customer_avail
pending m b_woken = m.current_seated
pending m b_finishing = m.left
pending m (b_await next) = m.current_seated
pending m _ = 1

abbrev BarberCan : Keys → Shop → Barber → Type 0
BarberCan keys m b = (m' : Shop) × (b' : Barber) × BarberMove keys m b m' b'

abbrev ClientCan : Keys → ℕ → Shop → Client → Type 0
ClientCan keys i m q = (m' : Shop) × (q' : Client) × ClientMove keys i m q m' q'

Bool-cases : (x : Bool) → (x ≡ true) ⊎ (x ≡ false)
Bool-cases true = inl refl
Bool-cases false = inr refl

BarberState-cases : (state : BarberState) → (state ≡ sleeping) ⊎ (state ≢ sleeping)
BarberState-cases sleeping = inl refl
BarberState-cases inviting = inr (λ e. ground arith)
BarberState-cases cutting = inr (λ e. ground arith)
BarberState-cases waking = inr (λ e. ground arith)
BarberState-cases unset = inr (λ e. ground arith)

queue-cases :
    (queue : List ℕ) → 0 < length queue → (client : ℕ) × (rest : List ℕ) × (queue ≡ client ∷ rest)
queue-cases [] h = absurd (omega arith)
queue-cases (client ∷ rest) h = (client, rest, refl)

barber_moves :
    (keys : Keys) (m : Shop) (b : Barber)
    → ((client : ℕ) → b ≡ b_call client → keys.is_main (keys.key client) ≡ false)
    → b_needs_state b ≤ m.state_lock
    → b_needs_lock b ≤ m.queue_lock
    → needs_queue b ≤ length m.queue
    → 0 < pending m b
    → BarberCan keys m b
barber_moves keys m b_sleep o s l q p = (_, _, fall_asleep)
barber_moves keys m b_asleep o s l q p = (_, _, wake_up p)
barber_moves keys m b_woken o s l q p = (_, _, see_seated p)
barber_moves keys m b_seated o s l q p = (_, _, start_cut s)
barber_moves keys m b_cut o s l q p = (_, _, cut)
barber_moves keys m b_cutting o s l q p = (_, _, finish)
barber_moves keys m b_finishing o s l q p = (_, _, see_left p)
barber_moves keys m b_left o s l q p = (_, _, look_up s)
barber_moves keys m b_peek o s l q p = (_, _, peek)
barber_moves keys m b_invite o s l q p = (_, _, invite)
barber_moves keys m b_inviting o s l q p = (_, _, lock_queue l)
barber_moves keys m b_pop o s l q p = let (client, rest, e) = queue-cases m.queue q in (_, _, pop e)
barber_moves keys m (b_call next) o s l q p = (_, _, call (o next refl))
barber_moves keys m (b_await next) o s l q p = (_, _, see_sat p)
barber_moves keys m (b_sat next) o s l q p = (_, _, cut_next s)

client_moves :
    (keys : Keys) (i : ℕ) (m : Shop) (q : Client)
    → keys.is_main (keys.key i) ≡ false
    → (eqb_ℤ (pos (length m.queue)) m.chairs ≡ false → length m.queue < 50)
    → needs_state q ≤ m.state_lock
    → needs_lock q ≤ m.queue_lock
    → q ≢ c_gone
    → queued q ≤ m.invited (keys.key i)
    → seated q ≤ m.finished
    → ClientCan keys i m q
client_moves keys i m (c_outside zero) o room s l g h f = (_, _, go_away)
client_moves keys i m (c_outside (suc r)) o room s l g h f = (_, _, go)
client_moves keys i m (c_enter r) o room s l g h f = (_, _, enter s)
client_moves keys i m (c_inside r) o room s l g h f = elim (BarberState-cases m.b_state) [
  | inl e ↦ (_, _, wake e)
  | inr ne ↦ (_, _, go_to_queue ne l)
]
client_moves keys i m (c_at_queue r) o room s l g h f =
    elim (Bool-cases (eqb_ℤ (pos (length m.queue)) m.chairs)) [
      | inl e ↦ (_, _, turn_away e)
      | inr e ↦ (_, _, enqueue e (room e))
    ]
client_moves keys i m (c_queued r) o room s l g h f = (_, _, be_called o h)
client_moves keys i m (c_waking r) o room s l g h f = (_, _, come_up s)
client_moves keys i m (c_called r) o room s l g h f = (_, _, stand_up s)
client_moves keys i m (c_sitting r) o room s l g h f = (_, _, sit)
client_moves keys i m (c_in_chair r) o room s l g h f = (_, _, be_finished f)
client_moves keys i m (c_done r) o room s l g h f = (_, _, leave)
client_moves keys i m c_gone o room s l g h f = absurd (g refl)

asleep-cases :
    (state : BarberState)
    → mismatch b_asleep state ≡ 0
    → is_waking state ≡ 0
    → 0 < is_sleeping state
asleep-cases state e f = ground arith

-- A client that waits for no signal.
record Ready (n : ℕ) (m : Shop) (clients : ℕ → Client) : Type 0 where
  index : ℕ
  within : index < n
  here : clients index ≢ c_gone
  called : queued (clients index) ≤ m.invited index
  served : seated (clients index) ≤ m.finished

module _ (n : ℕ) (m : Shop) (clients : ℕ → Client) where
  -- Somebody is on the way to the chair, and not before a signal.
  coming-Ready :
      {b : Barber}
      → Inv n m b clients
      → 0 < total coming n clients + total (λ v. v) n m.invited
      → Ready n m clients
  coming-Ready inv h = elim (dec_lt 0 (total coming n clients)) [
    | yes lt ↦
        let (i, l, p) = total_found coming n clients lt in
        record {
          index = i;
          within = l;
          here = ground arith;
          called = ground arith;
          served = ground arith;
        }
    | no ge ↦
        let (i, l, p) = total_found (λ v. v) n m.invited (omega arith) in
        record {
          index = i;
          within = l;
          here = ground (arith, inv.waits i);
          called = ground (arith, inv.waits i);
          served = ground (arith, inv.waits i);
        }
  ]

  -- If the barber waits for a signal, a client is ready to bring it about.
  client-Ready :
      (b : Barber)
      → Inv n m b clients
      → pending m b ≡ 0
      → (j : ℕ) → clients j ≢ c_gone
      → Ready n m clients
  client-Ready b_asleep inv h j here = elim (dec_lt j n) [
    | yes lt ↦
        let empty =
          inv.idle
            (asleep-cases m.b_state inv.counts.states (omega (arith, h, inv.counts.avail))) in
        record {
          index = j;
          within = lt;
          here = here;
          called = ground (arith, inv.waits j, empty);
          served =
              omega
                (arith, h, inv.counts.avail, inv.counts.one_client, total-ge seated n j clients lt);
        }
    | no ge ↦ absurd (here (inv.gone j (omega arith)))
  ]
  client-Ready b_woken inv h j here =
      coming-Ready inv (omega (arith, h, inv.counts.one_client, inv.counts.chair, inv.counts.done))
  client-Ready (b_await next) inv h j here =
      coming-Ready inv (omega (arith, h, inv.counts.one_client, inv.counts.chair, inv.counts.done))
  client-Ready b_finishing inv h j here = elim (dec_lt 0 m.finished) [
    | yes lt ↦
        let (i, l, p) =
          total_found seated n clients (omega (arith, h, inv.counts.chair, inv.counts.done)) in
        record {
          index = i;
          within = l;
          here = ground arith;
          called = ground arith;
          served = ground arith;
        }
    | no ge ↦
        let (i, l, p) = total_found leaving n clients (omega (arith, h, inv.counts.done)) in
        record {
          index = i;
          within = l;
          here = ground arith;
          called = ground arith;
          served = ground arith;
        }
  ]
  client-Ready b inv h j here = absurd (ground arith)

abbrev Moves : Keys → ℕ → System → Type 0
Moves keys n s = (t : System) × Step keys n s t

module _ (keys : Keys) (n k : ℕ) (s : System) (apart : Apart keys n)
    (inv : Inv n (view keys n s.shop) s.barber s.clients) (chairs : s.shop.chairs ≡ pos k)
    (bound : k < 50) where
  by_barber :
      b_needs_state s.barber ≤ s.shop.state_lock
      → b_needs_lock s.barber ≤ s.shop.queue_lock
      → 0 < pending s.shop s.barber
      → Moves keys n s
  by_barber h l p =
      let (m, b, mv) =
        barber_moves keys s.shop s.barber
          (λ client e. apart.not_main client (called-in client inv e)) h l inv.counts.needed p in
      (_, barber_step mv)

  by_client :
      (i : ℕ)
      → i < n
      → needs_state (s.clients i) ≤ s.shop.state_lock
      → needs_lock (s.clients i) ≤ s.shop.queue_lock
      → s.clients i ≢ c_gone
      → queued (s.clients i) ≤ own keys n s.shop.invited i
      → seated (s.clients i) ≤ s.shop.finished
      → Moves keys n s
  by_client i lt h l here called served =
      let (m, q, mv) =
        client_moves keys i s.shop (s.clients i) (apart.not_main i lt)
          (λ e. omega (arith, inv.room k chairs)) h l here
          (omega (arith, called, own-eq keys n s.shop.invited i lt)) served in
      (_, client_step i lt mv)

  -- Whoever has the queue lock can go on.
  queue_holder : s.shop.queue_lock ≡ 0 → Moves keys n s
  queue_holder e = elim (dec_lt 0 (b_has_queue s.barber)) [
    | yes h ↦ by_barber (ground arith) (ground arith) (ground arith)
    | no h ↦
        let (i, lt, p) =
          total_found has_queue n s.clients (omega (arith, e, inv.counts.queue_one)) in
        by_client i lt (ground arith) (ground arith) (ground arith) (ground arith) (ground arith)
  ]

  -- Whoever has the state lock can go on, once the queue lock is free.
  state_holder : s.shop.state_lock ≡ 0 → 0 < s.shop.queue_lock → Moves keys n s
  state_holder e l = elim (dec_lt 0 (b_has_state s.barber)) [
    | yes h ↦ by_barber (ground arith) (ground arith) (ground arith)
    | no h ↦
        let (i, lt, p) =
          total_found has_state n s.clients (omega (arith, e, inv.counts.state_one)) in
        by_client i lt (ground arith) (ground arith) (ground arith) (ground arith) (ground arith)
  ]

  pending-view : (b : Barber) → pending (view keys n s.shop) b ≡ pending s.shop b
  pending-view b_asleep = refl
  pending-view b = refl

  free_locks :
      (j : ℕ)
      → s.clients j ≢ c_gone
      → 0 < s.shop.queue_lock
      → 0 < s.shop.state_lock
      → Moves keys n s
  free_locks j here l h = elim (dec_lt 0 (pending s.shop s.barber)) [
    | yes p ↦ by_barber (ground arith) (ground arith) p
    | no p ↦
        let ready =
          client-Ready n (view keys n s.shop) s.clients s.barber inv
            (omega (arith, pending-view s.barber)) j here in
        by_client ready.index ready.within (ground arith) (ground arith) ready.here ready.called
          ready.served
  ]

-- If no two clients share a semaphore, none uses the set of barber.c, and there are fewer than 50 chairs, no
-- state that can be reached is a deadlock: as long as one client has not gone, some process can move,
-- whatever the number of clients and of their visits.
pub always_moves :
    (ftok pid : ℕ → ℕ) (n repeats k : ℕ) (s : System)
    → Apart (get_ipc_key ftok pid) n
    → k < 50
    → Reach (get_ipc_key ftok pid) n repeats (pos k) s
    → (j : ℕ) → s.clients j ≢ c_gone
    → (t : System) × Step (get_ipc_key ftok pid) n s t
always_moves ftok pid n repeats k s apart bound r j here =
    let keys = get_ipc_key ftok pid in
    let inv = Reach-Inv apart r in
    let chairs = chairs-Reach r in
    elim (dec_lt 0 s.shop.queue_lock) [
      | yes l ↦ elim (dec_lt 0 s.shop.state_lock) [
        | yes h ↦ free_locks keys n k s apart inv chairs bound j here l h
        | no h ↦ state_holder keys n k s apart inv chairs bound (omega arith) l
      ]
      | no l ↦ queue_holder keys n k s apart inv chairs bound (omega arith)
    ]
