-- ===== src/Barber/Safety.antt =====
-- What holds in every state of lab7/GeislerWojciech/cw07/zad1 that can be reached.
use agh_operating_systems.Base.{
  ℕ, ◌+◌, ◌≤◌, ◌<◌, ◌≡◌, ◌≢◌, refl, ◌∙◌, none, some, [], length, arith,
}
use agh_operating_systems.Base.Family.{total-ge, total_two, total_found, total_zero}
use agh_operating_systems.Base.Int.{ℤ, pos}
use agh_operating_systems.Barber.{
  Keys, get_ipc_key, Shop, b_sleep, b_seated, b_cut, b_left, b_invite, b_pop, b_sat, Client, Barber,
  BarberState, BarberMove, fall_asleep, ClientMove, go, c_sitting, opened, spawn, System, Step,
  barber_step, client_step, Reach, start, later,
}
use agh_operating_systems.Barber.Invariant.{
  has_state, has_queue, coming, seated, leaving, taken, expects, finishing, queued, times, calls,
  Inv,
}
use agh_operating_systems.Barber.Invariant.Barbering.{BarberMove-keeps, called-in}
use agh_operating_systems.Barber.Invariant.Visiting.{ClientMove-keeps}
use agh_operating_systems.Barber.View.{Apart, own, view, own-eq, BarberMove-view, ClientMove-view}

module _ {keys : Keys} {n : ℕ} (apart : Apart keys n) where
  -- The invariant, of the shop as it is seen with a semaphore of its own for every client.
  abbrev Holds : System → Type 0
  Holds s = Inv n (view keys n s.shop) s.barber s.clients

  Step-Inv : {s t : System} → Step keys n s t → Holds s → Holds t
  Step-Inv (barber_step mv) inv =
      BarberMove-keeps (BarberMove-view keys n apart (λ client e. called-in client inv e) mv) inv
  Step-Inv (client_step i lt mv) inv =
      ClientMove-keeps i lt (ClientMove-view keys n apart lt mv) inv

  start-Inv :
      (repeats : ℕ) (chairs : ℤ) → Inv n (view keys n (opened chairs)) b_sleep (spawn n repeats)
  start-Inv repeats chairs = record {
    counts = ground (
      arith,
      total_zero has_state n (spawn n repeats) (λ i lt. ground arith),
      total_zero has_queue n (spawn n repeats) (λ i lt. ground arith),
      total_zero coming n (spawn n repeats) (λ i lt. ground arith),
      total_zero seated n (spawn n repeats) (λ i lt. ground arith),
      total_zero leaving n (spawn n repeats) (λ i lt. ground arith),
      total_zero (λ v. v) n (own keys n (λ i. 0)) (λ i lt. ground arith),
    );
    sits = λ i lt h. ground arith;
    empty = λ h. refl;
    comes = tt;
    gone = λ i h. ground arith;
    waits = λ i. ground arith;
    idle = λ h. refl;
    awake = λ i lt h. ground arith;
    room = λ k e. omega arith;
  }

  pub Reach-Inv : {repeats : ℕ} {chairs : ℤ} {s : System} → Reach keys n repeats chairs s → Holds s
  Reach-Inv {repeats} {chairs} start = start-Inv repeats chairs
  Reach-Inv (later r step) = Step-Inv step (Reach-Inv r)

-- What barber.c asserts; at `b_pop`, that there is a client to pop.
abbrev pub BarberAsserts : Shop → Barber → Type 0
BarberAsserts m b_seated = m.seated_client ≢ none
BarberAsserts m b_cut = m.seated_client ≢ none
BarberAsserts m b_left = m.seated_client ≡ none
BarberAsserts m b_invite = m.seated_client ≡ none
BarberAsserts m b_pop = m.queue ≢ []
BarberAsserts m (b_sat next) = m.seated_client ≡ some next
BarberAsserts m _ = Unit

-- What client.c asserts.
abbrev pub ClientAsserts : Shop → Client → Type 0
ClientAsserts m (c_sitting r) = m.seated_client ≡ none
ClientAsserts m _ = Unit

module _ {n : ℕ} {m : Shop} {clients : ℕ → Client} where
  -- Behind `semwait(CURRENT_SEATED)` somebody is in the chair.
  seated-found :
      {b : Barber}
      → Inv n m b clients
      → 0 < taken b
      → finishing b ≡ 0
      → (i : ℕ) × (i < n) × (0 < seated (clients i)) × (m.seated_client ≡ some i)
  seated-found {b} inv h k =
      let (i, lt, p) =
        total_found seated n clients (omega (arith, inv.counts.chair, inv.counts.done)) in
      (i, lt, p, inv.sits i lt (omega arith))

  BarberAsserts-Inv : (b : Barber) → Inv n m b clients → BarberAsserts m b
  BarberAsserts-Inv b_seated inv =
      let (i, lt, p, e) = seated-found inv (omega arith) refl in ground arith
  BarberAsserts-Inv b_cut inv =
      let (i, lt, p, e) = seated-found inv (omega arith) refl in ground arith
  BarberAsserts-Inv b_left inv = ground (arith, inv.empty)
  BarberAsserts-Inv b_invite inv = ground (arith, inv.empty)
  BarberAsserts-Inv b_pop inv = ground arith
  BarberAsserts-Inv (b_sat next) inv =
      let (l, h) = inv.comes in
      inv.sits next l (
        omega (
          arith,
          h,
          inv.counts.one_client,
          inv.counts.chair,
          inv.counts.done,
          total-ge coming n next clients l,
          total-ge (λ v. v) n next m.invited l,
        ))
  BarberAsserts-Inv b inv = ground arith

  ClientAsserts-Inv :
      {b : Barber} (i : ℕ) (q : Client)
      → i < n
      → clients i ≡ q
      → Inv n m b clients
      → ClientAsserts m q
  ClientAsserts-Inv i (c_sitting r) lt e inv =
      ground (arith, inv.empty, total-ge coming n i clients lt)
  ClientAsserts-Inv i q lt e inv = ground arith

expects-le : (b : Barber) (state : BarberState) → expects b state ≤ 1
expects-le b state = ground arith

pub chairs-Reach :
    {keys : Keys} {n repeats : ℕ} {chairs : ℤ} {s : System}
    → Reach keys n repeats chairs s
    → s.shop.chairs ≡ chairs
chairs-Reach start = refl
chairs-Reach (later r step) = chairs-Step step (chairs-Reach r)
  where
    chairs-Barber :
        {keys : Keys} {m m' : Shop} {b b' : Barber}
        → BarberMove keys m b m' b'
        → m'.chairs ≡ m.chairs
    chairs-Barber fall_asleep = refl
    chairs-Barber mv = refl

    chairs-Client :
        {keys : Keys} {i : ℕ} {m m' : Shop} {q q' : Client}
        → ClientMove keys i m q m' q'
        → m'.chairs ≡ m.chairs
    chairs-Client go = refl
    chairs-Client mv = refl

    chairs-Step :
        {keys : Keys} {n : ℕ} {s t : System} {chairs : ℤ}
        → Step keys n s t
        → s.shop.chairs ≡ chairs
        → t.shop.chairs ≡ chairs
    chairs-Step (barber_step mv) e = chairs-Barber mv ∙ e
    chairs-Step (client_step i lt mv) e = chairs-Client mv ∙ e

BarberAsserts-view :
    (keys : Keys) (n : ℕ) (m : Shop) (b : Barber)
    → BarberAsserts (view keys n m) b
    → BarberAsserts m b
BarberAsserts-view keys n m b_seated h = h
BarberAsserts-view keys n m b h = h

ClientAsserts-view :
    (keys : Keys) (n : ℕ) (m : Shop) (q : Client)
    → ClientAsserts (view keys n m) q
    → ClientAsserts m q
ClientAsserts-view keys n m (c_sitting r) h = h
ClientAsserts-view keys n m q h = h

-- The keys of the `n` clients are apart, as `ftok` makes them of their pids, and there are `k` chairs.
module _ (ftok pid : ℕ → ℕ) (n repeats k : ℕ) (s : System) (apart : Apart (get_ipc_key ftok pid) n)
    (r : Reach (get_ipc_key ftok pid) n repeats (pos k) s) where
  abbrev keys : Keys
  keys = get_ipc_key ftok pid

  inv : Inv n (view keys n s.shop) s.barber s.clients
  inv = Reach-Inv apart r

  -- If no two clients share a semaphore, and none uses the set of barber.c, every assertion of barber.c and
  -- client.c that a process stands at holds, in every state that any interleaving reaches: somebody is in the chair when the barber starts to cut, nobody when it looks for
  -- the next client or a client sits down, after an invitation the invited client; and `pop_client` never
  -- meets an empty queue.
  pub assertions_hold :
      BarberAsserts s.shop s.barber × ((i : ℕ) → i < n → ClientAsserts s.shop (s.clients i))
  assertions_hold = (
    BarberAsserts-view keys n s.shop s.barber (BarberAsserts-Inv s.barber inv),
    λ i lt.
        ClientAsserts-view keys n s.shop (s.clients i)
          (ClientAsserts-Inv i (s.clients i) lt refl inv),
  )

  -- At most one client is on its way to the chair or in it.
  pub one_at_chair :
      (i j : ℕ)
      → i < n
      → j < n
      → i ≢ j
      → coming (s.clients i)
          + seated (s.clients i)
          + leaving (s.clients i)
          + (coming (s.clients j) + seated (s.clients j) + leaving (s.clients j))
        ≤ 1
  one_at_chair i j li lj ne = ground (
    arith,
    total_two coming n i j s.clients li lj ne,
    total_two seated n i j s.clients li lj ne,
    total_two leaving n i j s.clients li lj ne,
    total-ge coming n i s.clients li,
    total-ge coming n j s.clients lj,
    total-ge seated n i s.clients li,
    total-ge seated n j s.clients lj,
    total-ge leaving n i s.clients li,
    total-ge leaving n j s.clients lj,
    expects-le s.barber s.shop.b_state,
    inv.counts.one_client,
  )

  -- If no two clients share a semaphore, and none uses the set of barber.c, no client is forgotten or called
  -- twice: a client that waits for its invitation is once in the queue, or the barber has just taken it
  -- from there, or its semaphore is already signalled; any other client is nowhere in the queue and has no
  -- signal left over. With `k` chairs, `k` clients at most are queued.
  pub queue_exact :
      ((i : ℕ)
        → i < n
        → times i s.shop.queue + calls i s.barber + s.shop.invited (ftok (pid i))
          ≡ queued (s.clients i))
      × (length s.shop.queue ≤ k)
  queue_exact = (
    λ i lt. omega (arith, inv.waits i, own-eq keys n s.shop.invited i lt),
    inv.room k (chairs-Reach r),
  )
