-- ===== src/Exchange.antt =====
-- The exchange of signals in lab4/GeislerWojciech/cw04/zad3: main.c sends SIGUSR1 and, with `Type == 2`,
-- waits for the answer of child.c before the next one. Standard signals are not queued: of each there is
-- at most one pending for a process, so that a second one is lost; a handler is one step.
pub mod Counts
mod Tests
use agh_operating_systems.Base.{ℕ, zero, suc, ◌+◌, ◌≡◌, Bool, true, false, if◌then◌else◌, ◌==◌}

-- Where the `for` loop of the parent is, with `left` signals still to send.
pub data Loop : Type 0 where
  at_head : (left : ℕ) → Loop
  waiting : (left : ℕ) → Loop

-- The variables of both processes, and the signals that are pending for each.
pub record Processes : Type 0 where
  pub loop : Loop
  pub sent : ℕ
  pub received : ℕ
  pub confirmed : Bool
  pub child_received : ℕ
  pub child_pending : Bool
  pub parent_pending : Bool

-- The body of the loop up to `kill`; only `Type` 2 waits.
pub send_signal : ℕ → ℕ → Processes → Processes
send_signal type left s = record s {
  loop = if type == 2 then waiting left else at_head left;
  sent = s.sent + 1;
  confirmed = false;
  child_pending = true;
}

-- `respond_handler` of the child.
pub respond_handler : Processes → Processes
respond_handler s = record s {
  child_received = s.child_received + 1;
  child_pending = false;
  parent_pending = true;
}

-- `handler` of the parent.
pub handler : Processes → Processes
handler s = record s { received = s.received + 1; confirmed = true; parent_pending = false }

pub data Step (type : ℕ) (s : Processes) : Processes → Type 0 where
  send : {left : ℕ} → s.loop ≡ at_head (suc left) → Step type s (send_signal type left s)
  respond : s.child_pending ≡ true → Step type s (respond_handler s)
  confirm : s.parent_pending ≡ true → Step type s (handler s)
  resume :
      {left : ℕ}
      → s.loop ≡ waiting left
      → s.confirmed ≡ true
      → Step type s (record s { loop = at_head left })

-- The parent before its loop of `count` rounds.
abbrev pub start : ℕ → Processes
start count = record {
  loop = at_head count;
  sent = 0;
  received = 0;
  confirmed = false;
  child_received = 0;
  child_pending = false;
  parent_pending = false;
}

pub data Reach (type count : ℕ) : Processes → Type 0 where
  started : Reach type count (start count)
  later : {s t : Processes} → Reach type count s → Step type s t → Reach type count t
