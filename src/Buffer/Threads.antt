-- ===== src/Buffer/Threads.antt =====
-- The threads of lab9/GeislerWojciech/cw09/zad1/main.c: `produce` and `consume` as interleaved
-- moves under `filled_slots_mutex`. A move is what a thread does between two operations on the
-- mutex; the slot locks are only ever taken by the thread that has the mutex. A wait on
-- `filled_slots_cond` may end at any time, which covers every broadcast and POSIX's spurious wakeups.
mod Invariant
pub mod Order
mod Tests
use agh_operating_systems.Base.{
  ℕ, ◌+◌, ◌<◌, ◌≡◌, ◌≢◌, Bool, true, false, Option, none, some, List, [], ◌∷◌, ◌++◌, ltb, update,
  if◌then◌else◌,
}
use agh_operating_systems.Base.Int.{pos}
use agh_operating_systems.Buffer.{
  Line, Buffer, Config, init, is_full, insert, taken, exited, remove,
}

-- Where a thread stands. A producer carries the lines that its `getline` has still to deliver, and
-- the line that it holds.
pub data Pc : Type 0 where
  p_head : (rest : List Line) → Pc  -- the head of the `while` in `produce`
  p_lock : (line : Line) → (rest : List Line) → Pc  -- before `mutexlock`
  p_test : (line : Line) → (rest : List Line) → Pc  -- has the mutex, before the test of `filled_slots`
  p_wait : (line : Line) → (rest : List Line) → Pc  -- in `pthread_cond_wait` or its timed form
  c_head : Pc  -- the head of the `while` in `consume`
  c_lock : Pc
  c_test : Pc
  c_wait : Pc
  ended : (unsent : List Line) → Pc

-- The shared variables, with the owner of the mutex, and whether the process still runs.
-- `fetched` is what the consumers took and whether they printed it, `stored` what the producers
-- wrote, each with its thread: the first is the output, the second only a record of the run.
pub record Shared : Type 0 where
  pub buff : Buffer
  pub mutex : Option ℕ
  pub running : Bool
  pub stored : List (ℕ × Line)
  pub fetched : List (Line × Bool)

-- A move of thread `i`.
pub data Move (c : Config) (i : ℕ) (m : Shared) : Pc → Shared → Pc → Type 0 where
  read : {line : Line} {rest : List Line} → Move c i m (p_head (line ∷ rest)) m (p_lock line rest)
  end_of_file : Move c i m (p_head []) m (ended [])
  p_expire : {rest : List Line} → c.thread_ttl ≢ pos 0 → Move c i m (p_head rest) m (ended rest)
  p_acquire :
      {line : Line} {rest : List Line}
      → m.mutex ≡ none
      → Move c i m (p_lock line rest) (record m { mutex = some i }) (p_test line rest)
  p_block :
      {line : Line} {rest : List Line}
      → is_full c m.buff ≡ true
      → Move c i m (p_test line rest) (record m { mutex = none }) (p_wait line rest)
  p_wake :
      {line : Line} {rest : List Line}
      → m.mutex ≡ none
      → Move c i m (p_wait line rest) (record m { mutex = some i }) (p_test line rest)
  p_timeout :
      {line : Line} {rest : List Line}
      → c.thread_ttl ≢ pos 0
      → m.mutex ≡ none
      → Move c i m (p_wait line rest) m (ended (line ∷ rest))
  store :
      {line : Line} {rest : List Line} (b : Buffer)
      → is_full c m.buff ≡ false
      → insert c line m.buff ≡ some b
      → Move c i m
          (p_test line rest)
          (record m { buff = b; mutex = none; stored = m.stored ++ (i, line) ∷ [] })
          (p_head rest)
  c_enter : Move c i m c_head m c_lock
  c_expire : c.thread_ttl ≢ pos 0 → Move c i m c_head m (ended [])
  c_acquire : m.mutex ≡ none → Move c i m c_lock (record m { mutex = some i }) c_test
  c_block : m.buff.filled_slots ≡ 0 → Move c i m c_test (record m { mutex = none }) c_wait
  c_wake : m.mutex ≡ none → Move c i m c_wait (record m { mutex = some i }) c_test
  c_timeout : c.thread_ttl ≢ pos 0 → m.mutex ≡ none → Move c i m c_wait m (ended [])
  fetch :
      (line : Line) (printed : Bool) (b : Buffer)
      → m.buff.filled_slots ≢ 0
      → remove c m.buff ≡ taken line printed b
      → Move c i m c_test
          (record m { buff = b; mutex = none; fetched = m.fetched ++ (line, printed) ∷ [] })
          c_head
  exit :
      m.buff.filled_slots ≢ 0
      → remove c m.buff ≡ exited
      → Move c i m c_test (record m { running = false }) (ended [])

pub record System : Type 0 where
  pub mem : Shared
  pub pc : ℕ → Pc

-- `spawn` with `p` producers, numbered from 0, and `k` consumers after them. Every producer opens
-- the file for itself, so each is to deliver all its lines.
abbrev pub spawn : ℕ → ℕ → List Line → ℕ → Pc
spawn p k input i = if ltb i p then p_head input else if ltb i (p + k) then c_head else ended input

abbrev pub start_mem : Config → Shared
start_mem c = record {
  buff = init c.buffor_size;
  mutex = none;
  running = true;
  stored = [];
  fetched = [];
}

pub data Step (c : Config) (s : System) : System → Type 0 where
  pick :
      (i : ℕ) {m : Shared} {p : Pc}
      → s.mem.running ≡ true
      → Move c i s.mem (s.pc i) m p
      → Step c s (record { mem = m; pc = update s.pc i p })

pub data Reach (c : Config) (p k : ℕ) (input : List Line) : System → Type 0 where
  start : Reach c p k input (record { mem = start_mem c; pc = spawn p k input })
  later : {s t : System} → Reach c p k input s → Step c s t → Reach c p k input t
