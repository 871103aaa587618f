-- ===== src/Semaphores/Invariant/Moves.antt =====
-- Every move of lab9/GeislerWojciech/cw09/zad2/main.c keeps the invariant, which holds at the start.
use mathlib.Core.List.{Perm, perm_middle}
use mathlib.Core.List.Perm.{rfl, cons, trans, symm, append_left}
use agh_operating_systems.Base.{
  ℕ, ◌+◌, ◌<◌, ◌≡◌, refl, ◌≢◌, ap, none, some, List, ◌++◌, length, length-set, get_or, set, update,
  arith, length-replicate,
}
use native.Mathlib.Nat.{mod-lt}
use agh_operating_systems.Base.Family.{total, total-update, total_two, total_zero, update_all}
use agh_operating_systems.Buffer.{Line, Config}
use agh_operating_systems.Semaphores.{
  Pc, Shared, Move, p_acquire, p_lock, p_skip, p_found, store, p_release, c_acquire, c_lock, c_skip,
  c_found, fetch, exit, initial_permits, start_mem, spawn, System, Step, pick, Reach, start, later,
}
use agh_operating_systems.Semaphores.Contents.{
  contents, contents-replicate, contents_put, contents_take, length-contents_put,
  length-contents_take,
}
use agh_operating_systems.Semaphores.Invariant.{holds, spare, due, InRange, Claims, Claims-set, Inv}

-- The premise of a move.
abbrev Guard : {c : Config} {m m' : Shared} {p p' : Pc} → Move c m p m' p' → Type 0
Guard {m} (p_acquire h) = 0 < m.free_slots
Guard {m} (p_lock {p} h) = 0 < m.locks p
Guard {m} (p_found {p} e) = get_or m.slots p none ≡ none
Guard {m} (c_acquire h) = 0 < m.filled_slots
Guard {m} (c_lock {p} h) = 0 < m.locks p
Guard {m} (c_found {p} line e) = get_or m.slots p none ≡ some line
Guard _ = Unit

guard : {c : Config} {m m' : Shared} {p p' : Pc} (mv : Move c m p m' p') → Guard mv
guard (p_acquire h) = h
guard (p_lock h) = h
guard (p_found e) = e
guard (c_acquire h) = h
guard (c_lock h) = h
guard (c_found line e) = e
guard _ = tt

module _ {c : Config} {n : ℕ} {m : Shared} {pc : ℕ → Pc} (inv : Inv c n m pc) (i : ℕ)
    (lt : i < n) where
  open inv use {size, len, read_in, write_in, in_range, locked, free, filled, claims, kept}

  -- The move takes thread `i` from `p` to `p'`.
  record Mover (p p' : Pc) : Type 0 where
    here : pc i ≡ p
    spares : total spare n (update pc i p') + spare p ≡ total spare n pc + spare p'
    dues : total due n (update pc i p') + due p ≡ total due n pc + due p'
    range : InRange c.buffor_size p
    claim : Claims m.slots p

  mover : (p' : Pc) → Mover (pc i) p'
  mover p' = record {
    here = refl;
    spares = total-update spare n i pc p' lt;
    dues = total-update due n i pc p' lt;
    range = in_range i;
    claim = claims i lt;
  }

  Move-counts : {p p' : Pc} {m' : Shared} → Move c m p m' p' → Mover p p' → record {
    len : length m'.slots ≡ c.buffor_size;
    read_in : m'.next_read < c.buffor_size;
    write_in : m'.next_write < c.buffor_size;
    free :
        m'.free_slots + total spare n (update pc i p') + length (contents m'.slots)
        ≡ initial_permits c.buffor_size;
    filled : length (contents m'.slots) ≡ m'.filled_slots + total due n (update pc i p');
    here : InRange c.buffor_size p';
  }
  Move-counts (store {line} {rest} {p}) f =
      ground (arith, length-contents_put m.slots p line, length-set m.slots p (some line))
  Move-counts (fetch {p} line printed e h) f =
      ground (arith, length-contents_take m.slots p line, length-set m.slots p none)
  Move-counts (p_skip {p = p} other e) f = ground (arith, mod-lt (p + 1) size)
  Move-counts (p_found {p = p} e) f = ground (arith, mod-lt (p + 1) size)
  Move-counts (c_skip {p} e) f = ground (arith, mod-lt (p + 1) size)
  Move-counts (c_found {p} line e) f = ground (arith, mod-lt (p + 1) size)
  Move-counts mv f = ground (arith, guard mv)

  Move-locked :
      (j : ℕ) {p p' : Pc} {m' : Shared}
      → Move c m p m' p'
      → total (holds j) n (update pc i p') + holds j p ≡ total (holds j) n pc + holds j p'
      → m'.locks j + total (holds j) n (update pc i p') ≡ 1
  Move-locked j (p_lock h) e = ground (arith, locked j)
  Move-locked j (p_release) e = ground (arith, locked j)
  Move-locked j mv e = ground (arith, guard mv, locked j)

  -- Nobody else has the lock that thread `i` has.
  alone : (p j : ℕ) → j < n → i ≢ j → holds p (pc i) ≡ 1 → holds p (pc j) ≡ 0
  alone p j lj ne h = omega (arith, total_two (holds p) n i j pc lt lj ne, locked p)

  Move-claim : {p p' : Pc} {m' : Shared} → Move c m p m' p' → Mover p p' → Claims m'.slots p'
  Move-claim (p_found e) f = e
  Move-claim (c_found line e) f = (line, e)
  Move-claim (exit line e h) f = f.claim
  Move-claim mv f = tt

  Move-others :
      {p p' : Pc} {m' : Shared}
      → Move c m p m' p'
      → Mover p p'
      → (j : ℕ) → j < n
      → i ≢ j
      → Claims m'.slots (pc j)
  Move-others (store {line} {rest} {p}) f j lj ne =
      Claims-set m.slots p (some line) (pc j)
        (alone p j lj ne (ground (arith, ap (holds p) f.here))) (claims j lj)
  Move-others (fetch {p} line printed e h) f j lj ne =
      Claims-set m.slots p none (pc j) (alone p j lj ne (ground (arith, ap (holds p) f.here)))
        (claims j lj)
  Move-others mv f j lj ne = claims j lj

  Move-kept :
      {p p' : Pc} {m' : Shared}
      → Move c m p m' p'
      → Mover p p'
      → Perm m'.stored (m'.fetched ++ contents m'.slots)
  Move-kept (store {line} {rest} {p}) f = trans (cons line kept) (
      trans (symm (perm_middle m.fetched (contents m.slots)))
        (append_left m.fetched (symm (contents_put m.slots p line (ground arith) (f.claim)))))
  Move-kept (fetch {p} line printed e h) f = trans kept (
      trans (append_left m.fetched (contents_take m.slots p line e))
        (perm_middle m.fetched (contents (set m.slots p none))))
  Move-kept mv f = kept

  Move-Inv :
      {p p' : Pc} {m' : Shared}
      → Move c m p m' p'
      → Mover p p'
      → pc i ≡ p
      → Inv c n m' (update pc i p')
  Move-Inv {p} {p'} {m'} mv f e =
      let counts = Move-counts mv f in
      record {
        size = size;
        len = counts.len;
        read_in = counts.read_in;
        write_in = counts.write_in;
        in_range =
            update_all (λ j q. InRange c.buffor_size q) pc i p' counts.here (λ j ne. in_range j);
        locked = λ j.
            Move-locked j mv (ground (arith, ap (holds j) e, total-update (holds j) n i pc p' lt));
        free = counts.free;
        filled = counts.filled;
        claims =
            update_all (λ j q. j < n → Claims m'.slots q) pc i p' (λ l. Move-claim mv f)
              (λ j ne l. Move-others mv f j l ne);
        kept = Move-kept mv f;
      }

pub Step-Inv :
    {c : Config} {n : ℕ} {s t : System} → Step c n s t → Inv c n s.mem s.pc → Inv c n t.mem t.pc
Step-Inv (pick i {p = p} alive lt mv) inv = Move-Inv inv i lt mv (mover inv i lt p) refl

start-Inv :
    (c : Config) (p n : ℕ) (input : List Line)
    → 0 < c.buffor_size
    → Inv c n (start_mem c) (spawn p input)
start-Inv c p n input h = record {
  size = h;
  len = length-replicate c.buffor_size none;
  read_in = h;
  write_in = h;
  in_range = λ i. ground arith;
  locked = λ j. ground (arith, total_zero (holds j) n (spawn p input) (λ i lt. ground arith));
  free = ground (
    arith,
    contents-replicate c.buffor_size,
    total_zero spare n (spawn p input) (λ i lt. ground arith),
  );
  filled = ground (
    arith,
    contents-replicate c.buffor_size,
    total_zero due n (spawn p input) (λ i lt. ground arith),
  );
  claims = λ i lt. ground arith;
  kept = rw (contents-replicate c.buffor_size) rfl;
}

pub Reach-Inv :
    {c : Config} {p k : ℕ} {input : List Line} {s : System}
    → 0 < c.buffor_size
    → Reach c p k input s
    → Inv c (p + k) s.mem s.pc
Reach-Inv {c} {p} {k} {input} h start = start-Inv c p (p + k) input h
Reach-Inv h (later r step) = Step-Inv step (Reach-Inv h r)
