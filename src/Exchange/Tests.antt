-- ===== src/Exchange/Tests.antt =====
-- An exchange of two signals as in lab4/GeislerWojciech/cw04/zad3.
use agh_operating_systems.Base.{◌≡◌, refl, ◌⊎◌, true, false}
use agh_operating_systems.Exchange.{
  at_head, Processes, send_signal, respond_handler, handler, send, respond, confirm, resume, start,
  Reach, started, later,
}
use agh_operating_systems.Exchange.Counts.{CanStep, exchange_lem}

-- The first signal was answered.
abbrev answered : Processes
answered = record {
  loop = at_head 1;
  sent = 1;
  received = 1;
  confirmed = true;
  child_received = 1;
  child_pending = false;
  parent_pending = false;
}

answered-Reach : Reach 2 2 answered
unfolding send_signal respond_handler handler
answered-Reach =
    later (later (later (later started (send refl)) (respond refl)) (confirm refl))
      (resume refl refl)

exchange_example :
    ((answered.loop ≡ at_head 0)
      × (answered.sent ≡ 2)
      × (answered.child_received ≡ 2)
      × (answered.received ≡ 2))
    ⊎ CanStep 2 answered
exchange_example = exchange_lem 2 answered answered-Reach

-- Without waiting the second signal is lost while the first is pending.
lost : (respond_handler (send_signal 1 0 (send_signal 1 1 (start 2)))).child_received ≡ 1
unfolding send_signal respond_handler
lost = refl
