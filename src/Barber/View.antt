-- ===== src/Barber/View.antt =====
-- The processes of lab7/GeislerWojciech/cw07/zad1 with keys that are apart, seen as processes with a
-- semaphore of its own for every client.
use mathlib.Core.Path.{subst}
use agh_operating_systems.Base.{
  ℕ, ◌+◌, ◌<◌, ◌≡◌, refl, ap, ◌∙◌, false, arith, ltb, update, if◌then◌else◌, ℕ_discrete,
}
use agh_operating_systems.Barber.{
  Keys, Shop, Barber, b_call, b_await, Client, c_queued, c_called, BarberMove, fall_asleep, wake_up,
  see_seated, start_cut, cut, finish, see_left, look_up, peek, invite, lock_queue, pop, call,
  see_sat, cut_next, ClientMove, go, go_away, enter, wake, go_to_queue, turn_away, enqueue,
  be_called, stand_up, come_up, sit, be_finished, leave,
}
use agh_operating_systems.Barber.Invariant.{own_keys}

-- No two of the `n` clients share a semaphore, and none uses the set of barber.c.
pub record Apart (keys : Keys) (n : ℕ) : Type 0 where
  pub distinct : (i j : ℕ) → i < n → j < n → keys.key i ≡ keys.key j → i ≡ j
  pub not_main : (i : ℕ) → i < n → keys.is_main (keys.key i) ≡ false

module _ (keys : Keys) (n : ℕ) where
  abbrev pub own : (ℕ → ℕ) → ℕ → ℕ
  own invited i = if ltb i n then invited (keys.key i) else 0

  abbrev pub view : Shop → Shop
  view m = record m { invited = own m.invited }

  pub own-eq : (invited : ℕ → ℕ) (i : ℕ) → i < n → own invited i ≡ invited (keys.key i)
  own-eq invited i lt = ground arith

  own-update :
      (invited : ℕ → ℕ) (i v : ℕ)
      → Apart keys n
      → i < n
      → update (own invited) i v ≡ own (update invited (keys.key i) v)
  own-update invited i v apart lt = λ t j. at j t
    where
      at : (j : ℕ) → update (own invited) i v j ≡ own (update invited (keys.key i) v) j
      at j = elim (ℕ_discrete i j) [
        | yes e ↦ ground (arith, ap keys.key e)
        | no ne ↦ ground (arith, apart.distinct i j lt)
      ]

  pub BarberMove-view :
      {m m' : Shop} {b b' : Barber}
      → Apart keys n
      → ((client : ℕ) → b ≡ b_call client → client < n)
      → BarberMove keys m b m' b'
      → BarberMove own_keys (view m) b (view m') b'
  BarberMove-view apart lt fall_asleep = fall_asleep
  BarberMove-view apart lt (wake_up h) = wake_up h
  BarberMove-view apart lt (see_seated h) = see_seated h
  BarberMove-view apart lt (start_cut h) = start_cut h
  BarberMove-view apart lt cut = cut
  BarberMove-view apart lt finish = finish
  BarberMove-view apart lt (see_left h) = see_left h
  BarberMove-view apart lt (look_up h) = look_up h
  BarberMove-view apart lt peek = peek
  BarberMove-view apart lt invite = invite
  BarberMove-view apart lt (lock_queue h) = lock_queue h
  BarberMove-view apart lt (pop e) = pop e
  BarberMove-view {m} apart lt (call {client} other) =
      subst
        (λ f.
          BarberMove own_keys (view m) (b_call client) (record m { invited = f }) (b_await client))
        (ap (λ v. update (own m.invited) client (v + 1)) (own-eq m.invited client (lt client refl))
          ∙ own-update m.invited client (m.invited (keys.key client) + 1) apart (lt client refl))
        (call refl)
  BarberMove-view apart lt (see_sat h) = see_sat h
  BarberMove-view apart lt (cut_next h) = cut_next h

  pub ClientMove-view :
      {i : ℕ} {m m' : Shop} {q q' : Client}
      → Apart keys n
      → i < n
      → ClientMove keys i m q m' q'
      → ClientMove own_keys i (view m) q (view m') q'
  ClientMove-view apart lt go = go
  ClientMove-view apart lt go_away = go_away
  ClientMove-view apart lt (enter h) = enter h
  ClientMove-view apart lt (wake e) = wake e
  ClientMove-view apart lt (go_to_queue ne h) = go_to_queue ne h
  ClientMove-view apart lt (turn_away e) = turn_away e
  ClientMove-view apart lt (enqueue e room) = enqueue e room
  ClientMove-view {i} {m} apart lt (be_called {r} other h) =
      subst
        (λ f. ClientMove own_keys i (view m) (c_queued r) (record m { invited = f }) (c_called r))
        (own-update m.invited i 0 apart lt) (be_called refl (omega (arith, own-eq m.invited i lt)))
  ClientMove-view apart lt (stand_up h) = stand_up h
  ClientMove-view apart lt (come_up h) = come_up h
  ClientMove-view apart lt sit = sit
  ClientMove-view apart lt (be_finished h) = be_finished h
  ClientMove-view apart lt leave = leave
