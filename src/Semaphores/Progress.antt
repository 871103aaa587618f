-- ===== src/Semaphores/Progress.antt =====
-- Which threads of lab9/GeislerWojciech/cw09/zad2/main.c can move, and when.
use agh_operating_systems.Base.{
  ℕ, ◌+◌, ◌<◌, ◌≡◌, ◌⊎◌, inl, inr, none, true, List, get_or, arith, dec_lt, Option-cases,
}
use agh_operating_systems.Base.Family.{total, total_found}
use agh_operating_systems.Buffer.{Line, Config, matching}
use agh_operating_systems.Semaphores.{
  Pc, p_head, p_wait, p_start, p_try, p_test, p_claim, p_unlock, p_post, c_head, c_wait, c_start,
  c_try, c_test, c_claim, c_unlock, c_post, ended, Shared, Move, p_acquire, p_begin, p_lock, p_skip,
  p_found, store, p_release, post_filled, c_acquire, c_begin, c_lock, c_skip, c_found, fetch, exit,
  c_release, post_free, initial_permits, System, Step, pick, Reach,
}
use agh_operating_systems.Semaphores.Invariant.{holds, spare, due, Claims, Inv}
use agh_operating_systems.Semaphores.Invariant.Moves.{Reach-Inv}

abbrev CanMove : Config → Shared → Pc → Type 0
CanMove c m q = (m' : Shared) × (q' : Pc) × Move c m q m' q'

-- A thread that has the lock of a slot is never blocked.
holder_moves :
    (c : Config) (m : Shared) (slot : ℕ) (q : Pc)
    → 0 < holds slot q
    → Claims m.slots q
    → CanMove c m q
holder_moves c m slot (p_test line rest p) h e = elim (Option-cases (get_or m.slots p none)) [
  | inl empty ↦ (_, _, p_found empty)
  | inr (other, full) ↦ (_, _, p_skip other full)
]
holder_moves c m slot (p_claim line rest p) h e = (_, _, store)
holder_moves c m slot (p_unlock rest p) h e = (_, _, p_release)
holder_moves c m slot (c_test p) h e = elim (Option-cases (get_or m.slots p none)) [
  | inl empty ↦ (_, _, c_skip empty)
  | inr (line, full) ↦ (_, _, c_found line full)
]
holder_moves c m slot (c_claim p) h (line, e) = elim (Option-cases (matching line c)) [
  | inl wrong ↦ (_, _, exit line e wrong)
  | inr (printed, known) ↦ (_, _, fetch line printed e known)
]
holder_moves c m slot (c_unlock p) h e = (_, _, c_release)
holder_moves c m slot (p_head rest) h e = absurd (omega arith)
holder_moves c m slot (p_wait line rest) h e = absurd (omega arith)
holder_moves c m slot (p_start line rest) h e = absurd (omega arith)
holder_moves c m slot (p_try line rest p) h e = absurd (omega arith)
holder_moves c m slot (p_post rest) h e = absurd (omega arith)
holder_moves c m slot c_head h e = absurd (omega arith)
holder_moves c m slot c_wait h e = absurd (omega arith)
holder_moves c m slot c_start h e = absurd (omega arith)
holder_moves c m slot (c_try p) h e = absurd (omega arith)
holder_moves c m slot c_post h e = absurd (omega arith)
holder_moves c m slot ended h e = absurd (omega arith)

-- A thread that has taken a semaphore is blocked by the lock of a slot at most.
active_moves :
    (c : Config) (m : Shared) (q : Pc)
    → 0 < spare q + due q
    → Claims m.slots q
    → CanMove c m q ⊎ ((slot : ℕ) × (m.locks slot ≡ 0))
active_moves c m (p_start line rest) h e = inl (_, _, p_begin)
active_moves c m (p_try line rest p) h e = elim (dec_lt 0 (m.locks p)) [
  | yes free ↦ inl (_, _, p_lock free)
  | no taken ↦ inr (p, omega arith)
]
active_moves c m (p_test line rest p) h e =
    inl (holder_moves c m p (p_test line rest p) (ground arith) e)
active_moves c m (p_claim line rest p) h e = inl (_, _, store)
active_moves c m (p_unlock rest p) h e = inl (_, _, p_release)
active_moves c m (p_post rest) h e = inl (_, _, post_filled)
active_moves c m c_start h e = inl (_, _, c_begin)
active_moves c m (c_try p) h e = elim (dec_lt 0 (m.locks p)) [
  | yes free ↦ inl (_, _, c_lock free)
  | no taken ↦ inr (p, omega arith)
]
active_moves c m (c_test p) h e = inl (holder_moves c m p (c_test p) (ground arith) e)
active_moves c m (c_claim p) h e = inl (holder_moves c m p (c_claim p) (ground arith) e)
active_moves c m (c_unlock p) h e = inl (_, _, c_release)
active_moves c m c_post h e = inl (_, _, post_free)
active_moves c m (p_head rest) h e = absurd (omega arith)
active_moves c m (p_wait line rest) h e = absurd (omega arith)
active_moves c m c_head h e = absurd (omega arith)
active_moves c m c_wait h e = absurd (omega arith)
active_moves c m ended h e = absurd (omega arith)

module _ (c : Config) (n : ℕ) (s : System) (inv : Inv c n s.mem s.pc) (alive : s.mem.running ≡ true)
    (fits : c.buffor_size < 2147483648) where
  abbrev CanStep : Type 0
  CanStep = (t : System) × Step c n s t

  step : (i : ℕ) → i < n → CanMove c s.mem (s.pc i) → CanStep
  step i lt (m', q', mv) = (_, pick i alive lt mv)

  active_steps : (i : ℕ) → i < n → 0 < spare (s.pc i) + due (s.pc i) → CanStep
  active_steps i lt h = elim (active_moves c s.mem (s.pc i) h (inv.claims i lt)) [
    | inl move ↦ step i lt move
    | inr (slot, taken) ↦
        let (j, lj, held) = total_found (holds slot) n s.pc (omega (arith, inv.locked slot)) in
        step j lj (holder_moves c s.mem slot (s.pc j) held (inv.claims j lj))
  ]

  initial_permits-small : initial_permits c.buffor_size ≡ c.buffor_size
  unfolding initial_permits
  initial_permits-small = ground arith

  -- Where neither semaphore has anything to give, some thread is on its way.
  busy_steps : s.mem.free_slots ≡ 0 → s.mem.filled_slots ≡ 0 → CanStep
  busy_steps f g = elim (dec_lt 0 (total spare n s.pc)) [
    | yes h ↦ let (i, lt, e) = total_found spare n s.pc h in active_steps i lt (omega arith)
    | no z ↦
        let (i, lt, e) =
          total_found due n s.pc
            (omega (arith, inv.free, inv.filled, inv.size, initial_permits-small)) in
        active_steps i lt (omega arith)
  ]

  waiting_steps :
      (i j : ℕ) (line : Line) (rest : List Line)
      → i < n
      → j < n
      → s.pc i ≡ p_wait line rest
      → s.pc j ≡ c_wait
      → CanStep
  waiting_steps i j line rest li lj e f = elim (dec_lt 0 s.mem.free_slots) [
    | yes h ↦ step i li (rw e (_, _, p_acquire h))
    | no z ↦ elim (dec_lt 0 s.mem.filled_slots) [
      | yes h ↦ step j lj (rw f (_, _, c_acquire h))
      | no y ↦ busy_steps (omega arith) (omega arith)
    ]
  ]

-- Producers and consumers never wait for one another: if the process runs with fewer than 2^31 slots,
-- and a producer waits for a free slot while a consumer waits for a line, some thread can make a step.
pub no_deadlock :
    (c : Config) (p k : ℕ) (input : List Line) (s : System) (i j : ℕ) (line : Line)
    (rest : List Line)
    → 0 < c.buffor_size
    → c.buffor_size < 2147483648
    → Reach c p k input s
    → s.mem.running ≡ true
    → i < p + k
    → j < p + k
    → s.pc i ≡ p_wait line rest
    → s.pc j ≡ c_wait
    → (t : System) × Step c (p + k) s t
no_deadlock c p k input s i j line rest size fits r alive li lj e f =
    waiting_steps c (p + k) s (Reach-Inv size r) alive fits i j line rest li lj e f
