-- ===== src/Barber/Invariant/Visiting.antt =====
-- The moves of client.c keep the invariant.
use agh_operating_systems.Base.{
  ℕ, ◌+◌, ◌≤◌, ◌<◌, ◌≡◌, ◌≢◌, refl, none, some, [], length, arith, update,
}
use agh_operating_systems.Base.Family.{total, total-update, total-ge, total_two, update_all}
use agh_operating_systems.Base.Int.{pos}
use agh_operating_systems.Barber.{
  Shop, Barber, Client, ClientMove, wake, go_to_queue, enqueue, be_called, sit, be_finished, leave,
}
use agh_operating_systems.Barber.Invariant.{
  own_keys, has_state, has_queue, coming, seated, leaving, queued, is_sleeping, quiet, times, calls,
  Counts, Inv,
}
use agh_operating_systems.Barber.Invariant.Guards.{
  guard, is_sleeping-zero, times-append, length-append_one, Comes-map,
}

module _ {n : ℕ} {m : Shop} {b : Barber} {clients : ℕ → Client} (inv : Inv n m b clients) (i : ℕ)
    (lt : i < n) where
  -- The move takes client `i` from `q` to `q'`.
  record Mover (q q' : Client) : Type 0 where
    here : clients i ≡ q
    states :
        total has_state n (update clients i q') + has_state q
        ≡ total has_state n clients + has_state q'
    queues :
        total has_queue n (update clients i q') + has_queue q
        ≡ total has_queue n clients + has_queue q'
    comers : total coming n (update clients i q') + coming q ≡ total coming n clients + coming q'
    sitters : total seated n (update clients i q') + seated q ≡ total seated n clients + seated q'
    leavers :
        total leaving n (update clients i q') + leaving q ≡ total leaving n clients + leaving q'
    holds : has_state q ≤ total has_state n clients
    comes : coming q ≤ total coming n clients
    in_chair : seated q ≤ total seated n clients
    out : leaving q ≤ total leaving n clients
    calls : m.invited i ≤ total (λ v. v) n m.invited

  mover : (q' : Client) → Mover (clients i) q'
  mover q' = record {
    here = refl;
    states = total-update has_state n i clients q' lt;
    queues = total-update has_queue n i clients q' lt;
    comers = total-update coming n i clients q' lt;
    sitters = total-update seated n i clients q' lt;
    leavers = total-update leaving n i clients q' lt;
    holds = total-ge has_state n i clients lt;
    comes = total-ge coming n i clients lt;
    in_chair = total-ge seated n i clients lt;
    out = total-ge leaving n i clients lt;
    calls = total-ge (λ v. v) n i m.invited lt;
  }

  ClientMove-Counts :
      {q q' : Client} {m' : Shop}
      → ClientMove own_keys i m q m' q'
      → Mover q q'
      → Counts n m' b (update clients i q')
  ClientMove-Counts (enqueue {r} e full) f = ground (arith, length-append_one i m.queue)
  ClientMove-Counts (be_called {r} k' h) f =
      ground (arith, total-update (λ v. v) n i m.invited 0 lt, inv.waits i)
  ClientMove-Counts mv f = ground (arith, guard mv)

  ClientMove-waits :
      {q q' : Client} {m' : Shop}
      → ClientMove own_keys i m q m' q'
      → Mover q q'
      → times i m'.queue + calls i b + m'.invited i ≡ queued q'
  ClientMove-waits (enqueue {r} e full) f = ground (arith, times-append i i m.queue, inv.waits i)
  ClientMove-waits (be_called {r} k' h) f = ground (arith, inv.waits i)
  ClientMove-waits mv f = ground (arith, guard mv, inv.waits i)

  ClientMove-others :
      {q q' : Client} {m' : Shop}
      → ClientMove own_keys i m q m' q'
      → Mover q q'
      → (j : ℕ) → i ≢ j
      → times j m'.queue + calls j b + m'.invited j ≡ queued (clients j)
  ClientMove-others (enqueue {r} e full) f j ne =
      ground (arith, times-append j i m.queue, inv.waits j)
  ClientMove-others (be_called {r} k' h) f j ne = ground (arith, inv.waits j)
  ClientMove-others mv f j ne = ground (arith, inv.waits j)

  ClientMove-idle :
      {q q' : Client} {m' : Shop}
      → ClientMove own_keys i m q m' q'
      → Mover q q'
      → 0 < quiet b m'.b_state
      → m'.queue ≡ []
  ClientMove-idle (enqueue {r} e full) f h = ground (arith, inv.awake i lt)
  ClientMove-idle (wake {r} e) f h = ground (arith, inv.idle)
  ClientMove-idle mv f h = ground (arith, inv.idle)

  ClientMove-room :
      {q q' : Client} {m' : Shop}
      → ClientMove own_keys i m q m' q'
      → (k : ℕ) → m'.chairs ≡ pos k
      → length m'.queue ≤ k
  ClientMove-room (enqueue {r} e full) k h =
      ground (arith, length-append_one i m.queue, inv.room k h)
  ClientMove-room mv k h = inv.room k h

  ClientMove-sits :
      {q q' : Client} {m' : Shop}
      → ClientMove own_keys i m q m' q'
      → Mover q q'
      → 0 < seated q' + leaving q'
      → m'.seated_client ≡ some i
  ClientMove-sits (be_finished {r} h) f k = ground (arith, inv.sits i lt)
  ClientMove-sits mv f k = ground arith

  -- There is one client at the chair: where client `i` is, no other is.
  ClientMove-sit_alone :
      {q q' : Client} {m' : Shop}
      → ClientMove own_keys i m q m' q'
      → Mover q q'
      → (j : ℕ) → j < n
      → i ≢ j
      → 0 < seated (clients j) + leaving (clients j)
      → m'.seated_client ≡ some j
  ClientMove-sit_alone (sit {r}) f j lj ne h =
      ground (arith, total-ge seated n j clients lj, total-ge leaving n j clients lj)
  ClientMove-sit_alone (leave {r}) f j lj ne h =
      ground (arith, total-ge seated n j clients lj, total_two leaving n i j clients lt lj ne)
  ClientMove-sit_alone mv f j lj ne h = inv.sits j lj h

  ClientMove-empty :
      {q q' : Client} {m' : Shop}
      → ClientMove own_keys i m q m' q'
      → Mover q q'
      → total seated n (update clients i q') + total leaving n (update clients i q') ≡ 0
      → m'.seated_client ≡ none
  ClientMove-empty (leave {r}) f h = refl
  ClientMove-empty mv f h = ground (arith, inv.empty)

  ClientMove-awake :
      {q q' : Client} {m' : Shop}
      → ClientMove own_keys i m q m' q'
      → Mover q q'
      → 0 < has_queue q'
      → is_sleeping m'.b_state ≡ 0
  ClientMove-awake (go_to_queue {r} ne k) f h = is_sleeping-zero m.b_state ne
  ClientMove-awake mv f h = ground arith

  ClientMove-others_awake :
      {q q' : Client} {m' : Shop}
      → ClientMove own_keys i m q m' q'
      → Mover q q'
      → (j : ℕ) → j < n
      → 0 < has_queue (clients j)
      → is_sleeping m'.b_state ≡ 0
  ClientMove-others_awake (wake {r} e) f j lj h = refl
  ClientMove-others_awake mv f j lj h = ground (arith, inv.awake j lj h)

  -- Until the haircut is finished, the client that is called keeps coming.
  ClientMove-comes :
      {q q' : Client} {m' : Shop}
      → ClientMove own_keys i m q m' q'
      → Mover q q'
      → m.finished + total leaving n clients + m.left ≡ 0
      → (next : ℕ) → 0 < m.invited next + coming (clients next) + seated (clients next)
      → 0 < m'.invited next + coming (update clients i q' next) + seated (update clients i q' next)
  ClientMove-comes (be_finished {r} h) f z next k = ground arith
  ClientMove-comes (be_called {r} k' h) f z next k = ground arith
  ClientMove-comes mv f z next k = ground arith

  ClientMove-Inv :
      {q q' : Client} {m' : Shop}
      → ClientMove own_keys i m q m' q'
      → Mover q q'
      → Inv n m' b (update clients i q')
  ClientMove-Inv {q' = q'} {m' = m'} mv f = record {
    counts = ClientMove-Counts mv f;
    sits =
        update_all (λ j q. j < n → 0 < seated q + leaving q → m'.seated_client ≡ some j) clients i
          q' (λ l. ClientMove-sits mv f) (λ j ne l. ClientMove-sit_alone mv f j l ne);
    empty = ClientMove-empty mv f;
    comes =
        Comes-map n m.invited m'.invited clients (update clients i q') b inv.comes
          (λ z. ClientMove-comes mv f (omega (arith, inv.counts.done, z)));
    gone = λ j l. ground (arith, inv.gone j l);
    waits =
        update_all (λ j q. times j m'.queue + calls j b + m'.invited j ≡ queued q) clients i q'
          (ClientMove-waits mv f) (λ j ne. ClientMove-others mv f j ne);
    idle = ClientMove-idle mv f;
    awake =
        update_all (λ j q. j < n → 0 < has_queue q → is_sleeping m'.b_state ≡ 0) clients i q'
          (λ l. ClientMove-awake mv f) (λ j ne l. ClientMove-others_awake mv f j l);
    room = ClientMove-room mv;
  }

pub ClientMove-keeps :
    {n : ℕ} {m m' : Shop} {b : Barber} {clients : ℕ → Client} {q' : Client} (i : ℕ)
    → i < n
    → ClientMove own_keys i m (clients i) m' q'
    → Inv n m b clients
    → Inv n m' b (update clients i q')
ClientMove-keeps {q'} i lt mv inv = ClientMove-Inv inv i lt mv (mover inv i lt q')
