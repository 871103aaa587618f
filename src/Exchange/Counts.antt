-- ===== src/Exchange/Counts.antt =====
-- With `Type == 2` no signal of lab4/GeislerWojciech/cw04/zad3 is lost.
use agh_operating_systems.Base.{
  ℕ, zero, suc, ◌+◌, ◌≡◌, refl, ap, ◌⊎◌, inl, inr, Bool, arith, if◌then◌else◌, Bool-cases,
}
use agh_operating_systems.Exchange.{
  Loop, at_head, waiting, Processes, send_signal, respond_handler, handler, Step, send, respond,
  confirm, resume, Reach, started, later,
}

-- Where the one signal on its way is.
abbrev bit : Bool → ℕ
bit b = if b then 1 else 0

abbrev left_of : Loop → ℕ
left_of (at_head left) = left
left_of (waiting left) = left

abbrev bit_waiting : Loop → ℕ
bit_waiting (at_head left) = 0
bit_waiting (waiting left) = 1

record IsCounted (count : ℕ) (s : Processes) : Type 0 where
  total : s.sent + left_of s.loop ≡ count
  child : s.sent ≡ s.child_received + bit s.child_pending
  parent : s.child_received ≡ s.received + bit s.parent_pending
  wait :
      (bit_waiting s.loop ≡ 0) × (bit s.child_pending + bit s.parent_pending ≡ 0)
      ⊎ (bit_waiting s.loop ≡ 1)
        × (bit s.child_pending + bit s.parent_pending + bit s.confirmed ≡ 1)

Step-IsCounted : (count : ℕ) (s t : Processes) → IsCounted count s → Step 2 s t → IsCounted count t
unfolding send_signal respond_handler handler
Step-IsCounted count s t h (send {left = left} e) = record {
  total = ground (arith, h.total, ap left_of e, ap bit_waiting e);
  child = ground (arith, h.child, h.wait, ap left_of e, ap bit_waiting e);
  parent = ground (arith, h.parent, h.wait, ap left_of e, ap bit_waiting e);
  wait = ground (arith, h.wait, ap left_of e, ap bit_waiting e);
}
Step-IsCounted count s t h (respond e) = record {
  total = ground (arith, h.total, e);
  child = ground (arith, h.child, h.wait, e);
  parent = ground (arith, h.parent, h.wait, e);
  wait = ground (arith, h.wait, e);
}
Step-IsCounted count s t h (confirm e) = record {
  total = ground (arith, h.total, e);
  child = ground (arith, h.child, h.wait, e);
  parent = ground (arith, h.parent, h.wait, e);
  wait = ground (arith, h.wait, e);
}
Step-IsCounted count s t h (resume {left = left} e c) = record {
  total = ground (arith, h.total, ap left_of e, ap bit_waiting e, c);
  child = ground (arith, h.child, h.wait, ap left_of e, ap bit_waiting e, c);
  parent = ground (arith, h.parent, h.wait, ap left_of e, ap bit_waiting e, c);
  wait = ground (arith, h.wait, ap left_of e, ap bit_waiting e, c);
}

Reach-IsCounted : (count : ℕ) (s : Processes) → Reach 2 count s → IsCounted count s
Reach-IsCounted count s started = record {
  total = omega arith;
  child = refl;
  parent = refl;
  wait = inl (refl, refl);
}
Reach-IsCounted count t (later {s = s} r step) =
    Step-IsCounted count s t (Reach-IsCounted count s r) step

-- Some step can be made.
abbrev pub CanStep : ℕ → Processes → Type 0
CanStep type s = (t : Processes) × Step type s t

-- A parent that waits has its signal, or the answer, on the way, or the answer came.
waiting_steps :
    (s : Processes) (count left : ℕ) → IsCounted count s → s.loop ≡ waiting left → CanStep 2 s
waiting_steps s count left h e = elim (Bool-cases s.child_pending) [
  | inl sent ↦ (_, respond sent)
  | inr idle ↦ elim (Bool-cases s.parent_pending) [
    | inl answered ↦ (_, confirm answered)
    | inr quiet ↦ (_, resume e (ground (arith, h.wait, ap bit_waiting e, idle, quiet)))
  ]
]

-- In every state that the exchange with waiting can reach, in any order of the handlers, some step can be
-- made, or the parent is at the end of its loop; there it has sent `count` signals, the child has received
-- them all, and the parent has as many answers: no signal is lost.
pub exchange_lem :
    (count : ℕ) (s : Processes)
    → Reach 2 count s
    → ((s.loop ≡ at_head 0) × (s.sent ≡ count) × (s.child_received ≡ count) × (s.received ≡ count))
      ⊎ CanStep 2 s
exchange_lem count s r = by_loop s.loop refl
  where
    h : IsCounted count s
    h = Reach-IsCounted count s r

    by_loop :
        (l : Loop)
        → s.loop ≡ l
        → ((s.loop ≡ at_head 0)
            × (s.sent ≡ count)
            × (s.child_received ≡ count)
            × (s.received ≡ count))
          ⊎ CanStep 2 s
    by_loop (at_head zero) e = inl (
      e,
      omega (arith, h.total, ap left_of e),
      ground (arith, h.total, h.child, h.wait, ap left_of e, ap bit_waiting e),
      ground (arith, h.total, h.child, h.parent, h.wait, ap left_of e, ap bit_waiting e),
    )
    by_loop (at_head (suc left)) e = inr (_, send e)
    by_loop (waiting left) e = inr (waiting_steps s count left h e)
