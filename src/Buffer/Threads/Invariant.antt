-- ===== src/Buffer/Threads/Invariant.antt =====
-- What every move of a thread keeps: who has the mutex, what the buffer holds, and what each
-- producer has delivered.
use agh_operating_systems.Base.{
  ℕ, ◌<◌, ◌≡◌, refl, sym, ap, ◌∙◌, ◌≢◌, Bool, true, false, Option, none, some, List, [], ◌∷◌, ◌++◌,
  update, if◌then◌else◌, ◌==◌, arith, Bool-cases, inl, inr,
}
use mathlib.Core.List.{append_assoc}
use agh_operating_systems.Buffer.{Line, Buffer, Config, is_full, insert, taken, remove, matching}
use agh_operating_systems.Buffer.Queue.{Represents, init-Represents, insert_inv, remove_inv}
use agh_operating_systems.Buffer.Threads.{
  Pc, p_head, p_lock, p_test, p_wait, c_head, c_lock, c_test, c_wait, ended, Shared, Move,
  p_acquire, p_wake, store, c_acquire, c_wake, fetch, System, spawn, start_mem, Step, pick, Reach,
  start, later,
}

-- Between `mutexlock` and the unlocking or the wait that follows.
abbrev pub holding : Pc → Bool
holding (p_test line rest) = true
holding c_test = true
holding _ = false

-- The lines that a producer has still to store, or will never store.
abbrev pub pending : Pc → List Line
pending (p_head rest) = rest
pending (p_lock line rest) = line ∷ rest
pending (p_test line rest) = line ∷ rest
pending (p_wait line rest) = line ∷ rest
pending (ended unsent) = unsent
pending _ = []

abbrev pub is_consumer : Pc → Bool
is_consumer c_head = true
is_consumer c_lock = true
is_consumer c_test = true
is_consumer c_wait = true
is_consumer _ = false

abbrev pub stored_lines : List (ℕ × Line) → List Line
stored_lines [] = []
stored_lines ((i, line) ∷ log) = line ∷ stored_lines log

-- The lines that thread `i` stored.
abbrev pub stored_by : ℕ → List (ℕ × Line) → List Line
stored_by i [] = []
stored_by i ((j, line) ∷ log) = if j == i then line ∷ stored_by i log else stored_by i log

abbrev pub fetched_lines : List (Line × Bool) → List Line
fetched_lines [] = []
fetched_lines ((line, printed) ∷ log) = line ∷ fetched_lines log

-- Every line is printed exactly if `matching` says so.
abbrev pub PrintsMatching : Config → List (Line × Bool) → Type 0
PrintsMatching c [] = Unit
PrintsMatching c ((line, printed) ∷ log) = (matching line c ≡ some printed) × PrintsMatching c log

stored_lines-append :
    (log : List (ℕ × Line)) (i : ℕ) (line : Line)
    → stored_lines (log ++ (i, line) ∷ []) ≡ stored_lines log ++ line ∷ []
stored_lines-append [] i line = refl
stored_lines-append ((j, l) ∷ log) i line = ap (λ t. l ∷ t) (stored_lines-append log i line)

fetched_lines-append :
    (log : List (Line × Bool)) (line : Line) (printed : Bool)
    → fetched_lines (log ++ (line, printed) ∷ []) ≡ fetched_lines log ++ line ∷ []
fetched_lines-append [] line printed = refl
fetched_lines-append ((l, b) ∷ log) line printed =
    ap (λ t. l ∷ t) (fetched_lines-append log line printed)

stored_by-append_self :
    (log : List (ℕ × Line)) (i : ℕ) (line : Line)
    → stored_by i (log ++ (i, line) ∷ []) ≡ stored_by i log ++ line ∷ []
stored_by-append_self [] i line = ground arith
stored_by-append_self ((j, l) ∷ log) i line = elim (Bool-cases (j == i)) [
  | inl e ↦ rw e (ap (λ t. l ∷ t) (stored_by-append_self log i line))
  | inr e ↦ rw e (stored_by-append_self log i line)
]

stored_by-append_ne :
    (log : List (ℕ × Line)) (i j : ℕ) (line : Line)
    → i ≢ j
    → stored_by j (log ++ (i, line) ∷ []) ≡ stored_by j log
stored_by-append_ne [] i j line h = ground arith
stored_by-append_ne ((k, l) ∷ log) i j line h = elim (Bool-cases (k == j)) [
  | inl e ↦ rw e (ap (λ t. l ∷ t) (stored_by-append_ne log i j line h))
  | inr e ↦ rw e (stored_by-append_ne log i j line h)
]

PrintsMatching-append :
    (c : Config) (log : List (Line × Bool)) (line : Line) (printed : Bool)
    → PrintsMatching c log
    → matching line c ≡ some printed
    → PrintsMatching c (log ++ (line, printed) ∷ [])
PrintsMatching-append c [] line printed h m = (m, tt)
PrintsMatching-append c ((l, b) ∷ log) line printed h m =
    (h.0, PrintsMatching-append c log line printed h.1 m)

-- The queue that the buffer holds, in the order of the run.
pub record Stocked (c : Config) (m : Shared) : Type 0 where
  pub queue : List Line
  pub represents : Represents c m.buff queue
  pub order : stored_lines m.stored ≡ fetched_lines m.fetched ++ queue
  pub printed : PrintsMatching c m.fetched

pub record Inv (c : Config) (p : ℕ) (input : List Line) (s : System) : Type 0 where
  pub stock : Stocked c s.mem
  pub owner : (i : ℕ) → holding (s.pc i) ≡ true → s.mem.mutex ≡ some i
  pub delivered : (i : ℕ) → i < p → stored_by i s.mem.stored ++ pending (s.pc i) ≡ input

module _ {c : Config} {i : ℕ} {m : Shared} (pc : ℕ → Pc)
    (owner : (j : ℕ) → holding (pc j) ≡ true → m.mutex ≡ some j) where
  Move-owner :
      {p p' : Pc} {m' : Shared}
      → Move c i m p m' p'
      → pc i ≡ p
      → (j : ℕ) → holding (update pc i p' j) ≡ true
      → m'.mutex ≡ some j
  Move-owner (p_acquire free) e j h = ground (arith, owner j)
  Move-owner (p_wake free) e j h = ground (arith, owner j)
  Move-owner (c_acquire free) e j h = ground (arith, owner j)
  Move-owner (c_wake free) e j h = ground (arith, owner j)
  Move-owner mv e j h = ground (arith, owner j, owner i)

Move-delivered :
    {c : Config} {i : ℕ} {m m' : Shared} {p p' : Pc} (pc : ℕ → Pc)
    → Move c i m p m' p'
    → pc i ≡ p
    → (j : ℕ)
    → stored_by j m'.stored ++ pending (update pc i p' j) ≡ stored_by j m.stored ++ pending (pc j)
Move-delivered {i} {m} pc (store {line} {rest} b h k) e j = ground (
  arith,
  stored_by-append_self m.stored i line,
  stored_by-append_ne m.stored i j line,
  append_assoc (stored_by i m.stored) (line ∷ []) rest,
)
Move-delivered pc mv e j = ground arith

-- A line taken out is the oldest of the queue, so the order of the run is kept.
fetch-Stocked :
    {c : Config} (m : Shared) (line : Line) (printed : Bool) (b : Buffer) (mutex : Option ℕ)
    → m.buff.filled_slots ≢ 0
    → remove c m.buff ≡ taken line printed b
    → Stocked c m
    → Stocked c (record m { buff = b; mutex = mutex; fetched = m.fetched ++ (line, printed) ∷ [] })
fetch-Stocked {c} m line printed b mutex h e s =
    let (rest, same, ok, w) = remove_inv c m.buff b line s.queue printed s.represents h e in
    record {
      queue = rest;
      represents = w;
      order =
          s.order
          ∙ ap (λ t. fetched_lines m.fetched ++ t) same
          ∙ sym (append_assoc (fetched_lines m.fetched) (line ∷ []) rest)
          ∙ ap (λ t. t ++ rest) (sym (fetched_lines-append m.fetched line printed));
      printed = PrintsMatching-append c m.fetched line printed s.printed ok;
    }

store-Stocked :
    {c : Config} (m : Shared) (i : ℕ) (line : Line) (b : Buffer) (mutex : Option ℕ)
    → is_full c m.buff ≡ false
    → insert c line m.buff ≡ some b
    → Stocked c m
    → Stocked c (record m { buff = b; mutex = mutex; stored = m.stored ++ (i, line) ∷ [] })
store-Stocked {c} m i line b mutex h e s = record {
  queue = s.queue ++ line ∷ [];
  represents = insert_inv c m.buff b s.queue line s.represents h e;
  order =
      stored_lines-append m.stored i line
      ∙ ap (λ t. t ++ line ∷ []) s.order
      ∙ append_assoc (fetched_lines m.fetched) s.queue (line ∷ []);
  printed = s.printed;
}

Move-Stocked :
    {c : Config} {i : ℕ} {m m' : Shared} {p p' : Pc}
    → Move c i m p m' p'
    → Stocked c m
    → Stocked c m'
Move-Stocked {i} {m} (store {line} {rest} b h e) s = store-Stocked m i line b none h e s
Move-Stocked {m} (fetch line printed b h e) s = fetch-Stocked m line printed b none h e s
Move-Stocked mv s = record {
  queue = s.queue;
  represents = s.represents;
  order = s.order;
  printed = s.printed;
}

pub Step-Inv :
    {c : Config} {p : ℕ} {input : List Line} {s t : System}
    → Step c s t
    → Inv c p input s
    → Inv c p input t
Step-Inv {s = s} (pick i run mv) v = record {
  stock = Move-Stocked mv v.stock;
  owner = Move-owner s.pc v.owner mv refl;
  delivered = λ j h. Move-delivered s.pc mv refl j ∙ v.delivered j h;
}

start-Inv :
    (c : Config) (p k : ℕ) (input : List Line)
    → 0 < c.buffor_size
    → c.buffor_size < 2147483648
    → Inv c p input (record { mem = start_mem c; pc = spawn p k input })
start-Inv c p k input h h' = record {
  stock = record { queue = []; represents = init-Represents c h h'; order = refl; printed = tt };
  owner = λ i h. ground arith;
  delivered = λ i h. ground arith;
}

pub Reach-Inv :
    {c : Config} {p k : ℕ} {input : List Line} {s : System}
    → 0 < c.buffor_size
    → c.buffor_size < 2147483648
    → Reach c p k input s
    → Inv c p input s
Reach-Inv {c} {p} {k} {input} h h' start = start-Inv c p k input h h'
Reach-Inv h h' (later r st) = Step-Inv st (Reach-Inv h h' r)
