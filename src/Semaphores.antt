-- ===== src/Semaphores.antt =====
-- The bounded buffer with semaphores of lab9/GeislerWojciech/cw09/zad2/main.c: `produce` and `consume`
-- interleaved between any two accesses to shared memory. No lock guards `next_read` and `next_write`, so
-- that several threads can look for a slot at once. Lines, the configuration and `matching` are those of
-- Buffer, where the source has the same text. A wait that times out is a move that may come at any time.
pub mod Contents
pub mod Invariant
pub mod Progress
pub mod Safety
mod Tests
use agh_operating_systems.Base.{
  ℕ, zero, suc, ◌+◌, ◌-◌, ◌%◌, ◌<◌, ◌≡◌, ◌≢◌, Bool, true, false, Option, none, some, List, [], ◌∷◌,
  ◌++◌, get_or, set, replicate, ltb, update, if◌then◌else◌,
}
use agh_operating_systems.Base.Int.{pos}
use agh_operating_systems.Buffer.{Line, Slots, Config, matching}

-- Where a thread stands. A producer carries the line that it holds and those that `getline` has still
-- to deliver; `p` is its local `pos`.
pub data Pc : Type 0 where
  p_head : (rest : List Line) → Pc  -- the head of the `while` in `produce`
  p_wait : (line : Line) → (rest : List Line) → Pc  -- before `semwait(free_slots)`
  p_start : (line : Line) → (rest : List Line) → Pc  -- before `next_write` is read
  p_try : (line : Line) → (rest : List Line) → (p : ℕ) → Pc  -- before `semwait(slot_locks[pos])`
  p_test : (line : Line) → (rest : List Line) → (p : ℕ) → Pc  -- has the slot's lock
  p_claim : (line : Line) → (rest : List Line) → (p : ℕ) → Pc  -- behind the write of `next_write`
  p_unlock : (rest : List Line) → (p : ℕ) → Pc  -- behind the write of the slot
  p_post : (rest : List Line) → Pc  -- before `semsignal(filled_slots)`
  c_head : Pc
  c_wait : Pc  -- before `semwait(filled_slots)`
  c_start : Pc
  c_try : (p : ℕ) → Pc
  c_test : (p : ℕ) → Pc
  c_claim : (p : ℕ) → Pc  -- behind the write of `next_read`
  c_unlock : (p : ℕ) → Pc  -- behind the emptying of the slot
  c_post : Pc  -- before `semsignal(free_slots)`
  ended : Pc

-- The shared variables and the values of the semaphores. `output` is what was printed; `stored` and
-- `fetched` are a record of the run.
pub record Shared : Type 0 where
  pub slots : Slots
  pub next_read : ℕ
  pub next_write : ℕ
  pub locks : ℕ → ℕ
  pub free_slots : ℕ
  pub filled_slots : ℕ
  pub running : Bool
  pub stored : List Line
  pub fetched : List Line
  pub output : List Line

-- The position behind `p`.
abbrev pub next_pos : Config → ℕ → ℕ
next_pos c p = (p + 1) % c.buffor_size

-- `semwait` and `semsignal` on the lock of a slot.
abbrev pub lock_slot : Shared → ℕ → Shared
lock_slot m p = record m { locks = update m.locks p (m.locks p - 1) }

abbrev pub unlock_slot : Shared → ℕ → Shared
unlock_slot m p = record m { locks = update m.locks p (m.locks p + 1) }

pub data Move (c : Config) (m : Shared) : Pc → Shared → Pc → Type 0 where
  read : {line : Line} {rest : List Line} → Move c m (p_head (line ∷ rest)) m (p_wait line rest)
  end_of_file : Move c m (p_head []) m ended
  p_expire : {rest : List Line} → c.thread_ttl ≢ pos 0 → Move c m (p_head rest) m ended
  p_acquire :
      {line : Line} {rest : List Line}
      → 0 < m.free_slots
      → Move c m (p_wait line rest) (record m { free_slots = m.free_slots - 1 }) (p_start line rest)
  p_timeout :
      {line : Line} {rest : List Line} → c.thread_ttl ≢ pos 0 → Move c m (p_wait line rest) m ended
  p_begin :
      {line : Line} {rest : List Line}
      → Move c m (p_start line rest) m (p_try line rest m.next_write)
  p_lock :
      {line : Line} {rest : List Line} {p : ℕ}
      → 0 < m.locks p
      → Move c m (p_try line rest p) (lock_slot m p) (p_test line rest p)
  p_skip :
      {line : Line} {rest : List Line} {p : ℕ} (other : Line)
      → get_or m.slots p none ≡ some other
      → Move c m (p_test line rest p) (unlock_slot m p) (p_try line rest (next_pos c p))
  p_found :
      {line : Line} {rest : List Line} {p : ℕ}
      → get_or m.slots p none ≡ none
      → Move c m (p_test line rest p) (record m { next_write = next_pos c p }) (p_claim line rest p)
  store :
      {line : Line} {rest : List Line} {p : ℕ}
      → Move c m
          (p_claim line rest p)
          (record m { slots = set m.slots p (some line); stored = line ∷ m.stored })
          (p_unlock rest p)
  p_release :
      {rest : List Line} {p : ℕ} → Move c m (p_unlock rest p) (unlock_slot m p) (p_post rest)
  post_filled :
      {rest : List Line}
      → Move c m (p_post rest) (record m { filled_slots = m.filled_slots + 1 }) (p_head rest)
  c_enter : Move c m c_head m c_wait
  c_expire : c.thread_ttl ≢ pos 0 → Move c m c_head m ended
  c_acquire :
      0 < m.filled_slots → Move c m c_wait (record m { filled_slots = m.filled_slots - 1 }) c_start
  c_timeout : c.thread_ttl ≢ pos 0 → Move c m c_wait m ended
  c_begin : Move c m c_start m (c_try m.next_read)
  c_lock : {p : ℕ} → 0 < m.locks p → Move c m (c_try p) (lock_slot m p) (c_test p)
  c_skip :
      {p : ℕ}
      → get_or m.slots p none ≡ none
      → Move c m (c_test p) (unlock_slot m p) (c_try (next_pos c p))
  c_found :
      {p : ℕ} (line : Line)
      → get_or m.slots p none ≡ some line
      → Move c m (c_test p) (record m { next_read = next_pos c p }) (c_claim p)
  fetch :
      {p : ℕ} (line : Line) (printed : Bool)
      → get_or m.slots p none ≡ some line
      → matching line c ≡ some printed
      → Move c m
          (c_claim p)
          (record m {
            slots = set m.slots p none;
            fetched = line ∷ m.fetched;
            output = if printed then line ∷ m.output else m.output;
          })
          (c_unlock p)
  -- `matching` ends the process, wherever its threads stand.
  exit :
      {p : ℕ} (line : Line)
      → get_or m.slots p none ≡ some line
      → matching line c ≡ none
      → Move c m (c_claim p) (record m { running = false }) (c_claim p)
  c_release : {p : ℕ} → Move c m (c_unlock p) (unlock_slot m p) c_post
  post_free : Move c m c_post (record m { free_slots = m.free_slots + 1 }) c_head

pub record System : Type 0 where
  pub mem : Shared
  pub pc : ℕ → Pc

-- `spawn` with `p` producers, numbered from 0, and `k` consumers after them.
abbrev pub spawn : ℕ → List Line → ℕ → Pc
spawn p input i = if ltb i p then p_head input else c_head

-- The value of `free_slots` behind `sem_init`: the size as an `unsigned int`. A value above
-- `SEM_VALUE_MAX` is refused, and the result is not looked at; the semaphore keeps its zeros.
unfoldable pub initial_permits : ℕ → ℕ
initial_permits size = let n = size % 4294967296 in if ltb n 2147483648 then n else 0

-- What `main` sets up.
abbrev pub start_mem : Config → Shared
start_mem c = record {
  slots = replicate c.buffor_size none;
  next_read = 0;
  next_write = 0;
  locks = λ p. 1;
  free_slots = initial_permits c.buffor_size;
  filled_slots = 0;
  running = true;
  stored = [];
  fetched = [];
  output = [];
}

-- A step of one of `n` threads.
pub data Step (c : Config) (n : ℕ) (s : System) : System → Type 0 where
  pick :
      (i : ℕ) {m : Shared} {p : Pc}
      → s.mem.running ≡ true
      → i < n
      → Move c s.mem (s.pc i) m p
      → Step c n s (record { mem = m; pc = update s.pc i p })

pub data Reach (c : Config) (p k : ℕ) (input : List Line) : System → Type 0 where
  start : Reach c p k input (record { mem = start_mem c; pc = spawn p input })
  later : {s t : System} → Reach c p k input s → Step c (p + k) s t → Reach c p k input t
