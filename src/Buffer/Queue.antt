-- ===== src/Buffer/Queue.antt =====
-- The buffer of lab9/GeislerWojciech/cw09/zad1/main.c seen as a queue of lines.
use agh_operating_systems.Base.{
  ℕ, zero, suc, ◌+◌, ◌-◌, ◌%◌, ◌≤◌, ◌<◌, ◌≡◌, refl, ap, ◌∙◌, sym, ◌≢◌, Bool, true, false, Option,
  none, some, List, [], ◌∷◌, ◌++◌, length, get_elem?, get_or, set, length-set, length-append,
  length-replicate, ◌↔◌, arith, dec_lt, ℕ_discrete,
}
use mathlib.Core.Path.{subst}
use native.Mathlib.Nat.{mod-eq_of_lt, mod-eq-sub-mod, mod-add-mod, add-zero}
use agh_operating_systems.Base.Arrays.{
  get_or-replicate, get_or-set_self, get_or-set_ne, get_elem?_of_le, get_elem?-append_last,
  get_elem?-append_ne,
}
use agh_operating_systems.Base.Numbers.{mod_add_inj}
use agh_operating_systems.Base.Int.{pos, as_int, eqb_ℤ_iff, as_int_of_lt}
use agh_operating_systems.Buffer.{
  Line, Buffer, Config, matching, init, is_full, find_free, find_filled, insert, taken, exited,
  emptied, remove,
}

-- `b` holds the lines `q`, oldest first: they fill the slots from `next_read` on, round the end of
-- the array, and every other slot is empty.
pub record Represents (c : Config) (b : Buffer) (q : List Line) : Type 0 where
  pub small : c.buffor_size < 2147483648
  pub len : length b.slots ≡ c.buffor_size
  pub read_in : b.next_read < c.buffor_size
  pub fits : length q ≤ c.buffor_size
  pub count : b.filled_slots ≡ length q
  pub write_at : b.next_write ≡ (b.next_read + length q) % c.buffor_size
  pub held :
      (k : ℕ)
      → k < c.buffor_size
      → get_or b.slots ((b.next_read + k) % c.buffor_size) none ≡ get_elem? q k

find_free_here :
    (fuel size : ℕ) (slots : List (Option Line)) (p : ℕ)
    → 0 < fuel
    → get_or slots p none ≡ none
    → find_free fuel size slots p ≡ some p
unfolding find_free
find_free_here zero size slots p f h = absurd (omega arith)
find_free_here (suc fuel) size slots p f h = rw (h, find_free)

find_filled_here :
    (fuel size : ℕ) (slots : List (Option Line)) (p : ℕ) (line : Line)
    → 0 < fuel
    → get_or slots p none ≡ some line
    → find_filled fuel size slots p ≡ some (p, line)
unfolding find_filled
find_filled_here zero size slots p line f h = absurd (omega arith)
find_filled_here (suc fuel) size slots p line f h = rw (h, find_filled)

-- The buffer of `main` is empty.
pub init-Represents :
    (c : Config)
    → 0 < c.buffor_size
    → c.buffor_size < 2147483648
    → Represents c (init c.buffor_size) []
unfolding init
init-Represents c h h' = record {
  small = h';
  len = length-replicate c.buffor_size none;
  read_in = h;
  fits = omega arith;
  count = refl;
  write_at = omega (arith, mod-eq_of_lt {n = 0 + 0} {m = c.buffor_size} (omega arith));
  held = λ k hk. get_or-replicate c.buffor_size ((0 + k) % c.buffor_size) none;
}

-- The test of the waiting loop of `produce` finds out whether the queue is full.
pub is_full_iff :
    (c : Config) (b : Buffer) (q : List Line)
    → Represents c b q
    → (is_full c b ≡ true) ↔ (length q ≡ c.buffor_size)
unfolding is_full
is_full_iff c b q v = ground (
  arith,
  as_int_of_lt c.buffor_size v.small,
  eqb_ℤ_iff (pos b.filled_slots) (as_int c.buffor_size),
  v.count,
)

module _ (c : Config) (b : Buffer) (q : List Line) (v : Represents c b q) where
  open v use {small, len, read_in, fits, count, write_at, held}

  abbrev size : ℕ
  size = c.buffor_size

  -- The slot at `next_write`.
  write_free : length q < size → get_or b.slots b.next_write none ≡ none
  write_free h = rw write_at (held (length q) h ∙ get_elem?_of_le q (length q) (omega arith))

  inserted : Line → Buffer
  inserted line = record {
    slots = set b.slots b.next_write (some line);
    next_read = b.next_read;
    next_write = (b.next_write + 1) % size;
    filled_slots = b.filled_slots + 1;
  }

  insert_eq : (line : Line) → length q < size → insert c line b ≡ some (inserted line)
  unfolding insert inserted
  insert_eq line h =
      rw (find_free_here size size b.slots b.next_write (omega arith) (write_free h), insert)

  inserted_held :
      (line : Line)
      → length q < size
      → (k : ℕ) → k < size
      → get_or (inserted line).slots ((b.next_read + k) % size) none ≡ get_elem? (q ++ line ∷ []) k
  unfolding inserted
  inserted_held line h k hk = elim (ℕ_discrete k (length q)) [
    | yes e ↦
        rw (e, ← write_at, get_or-set_self b.slots b.next_write (some line) none (omega arith))
          (sym (get_elem?-append_last q line))
    | no n ↦
        get_or-set_ne b.slots b.next_write ((b.next_read + k) % size) (some line) none
          (λ e. n (mod_add_inj size b.next_read k (length q) read_in hk h (sym e ∙ write_at)))
        ∙ held k hk
        ∙ sym (get_elem?-append_ne q line k n)
  ]

  inserted-Represents :
      (line : Line) → length q < size → Represents c (inserted line) (q ++ line ∷ [])
  unfolding inserted
  inserted-Represents line h = record {
    small = small;
    len = length-set b.slots b.next_write (some line) ∙ len;
    read_in = read_in;
    fits = omega (arith, length-append q (line ∷ []));
    count = omega (arith, length-append q (line ∷ []));
    write_at =
        ap (λ t. (t + 1) % size) write_at
        ∙ mod-add-mod (b.next_read + length q) size 1
        ∙ ap (λ t. t % size) (omega (arith, length-append q (line ∷ [])));
    held = inserted_held line h;
  }

-- `produce` on a buffer that is not full appends the line to the queue. Its search always ends, at
-- `next_write`.
pub insert_refines :
    (c : Config) (b : Buffer) (q : List Line) (line : Line)
    → Represents c b q
    → length q < c.buffor_size
    → (b' : Buffer) × (insert c line b ≡ some b') × Represents c b' (q ++ line ∷ [])
insert_refines c b q line v h =
    (inserted c b q v line, insert_eq c b q v line h, inserted-Represents c b q v line h)

module _ (c : Config) (b : Buffer) (line : Line) (q : List Line)
    (v : Represents c b (line ∷ q)) where
  open v use {small, len, read_in, fits, count, write_at, held}

  abbrev size' : ℕ
  size' = c.buffor_size

  start : (b.next_read + 0) % size' ≡ b.next_read
  start = ap (λ t. t % size') (add-zero b.next_read) ∙ mod-eq_of_lt read_in

  -- The slot at `next_read`.
  read_line : get_or b.slots b.next_read none ≡ some line
  read_line = ap (λ t. get_or b.slots t none) (sym start) ∙ held 0 (omega arith)

  removed : Buffer
  removed = record {
    slots = set b.slots b.next_read none;
    next_read = (b.next_read + 1) % size';
    next_write = b.next_write;
    filled_slots = b.filled_slots - 1;
  }

  remove_eq : remove c b ≡ emptied c b b.next_read line (matching line c)
  unfolding remove
  remove_eq =
      rw (find_filled_here size' size' b.slots b.next_read line (omega arith) read_line, remove)

  shift : (k : ℕ) → ((b.next_read + 1) % size' + k) % size' ≡ (b.next_read + suc k) % size'
  shift k = mod-add-mod (b.next_read + 1) size' k ∙ ap (λ t. t % size') (omega arith)

  ne_start : (k : ℕ) → suc k < size' → b.next_read ≢ ((b.next_read + 1) % size' + k) % size'
  ne_start k h e =
      cc (mod_add_inj size' b.next_read 0 (suc k) read_in (omega arith) h (start ∙ e ∙ shift k))

  round : (k : ℕ) → suc k ≡ size' → ((b.next_read + 1) % size' + k) % size' ≡ b.next_read
  round k e =
      shift k
      ∙ mod-eq-sub-mod {n = b.next_read + suc k} {m = size'} (omega arith)
      ∙ ap (λ t. t % size') (omega arith)
      ∙ mod-eq_of_lt read_in

  removed_held :
      (k : ℕ)
      → k < size'
      → get_or removed.slots (((b.next_read + 1) % size' + k) % size') none ≡ get_elem? q k
  unfolding removed
  removed_held k hk = elim (dec_lt (suc k) size') [
    | yes below ↦
        get_or-set_ne b.slots b.next_read (((b.next_read + 1) % size' + k) % size') none none
          (ne_start k below)
        ∙ ap (λ t. get_or b.slots t none) (shift k)
        ∙ held (suc k) below
    | no last ↦
        ap (λ t. get_or (set b.slots b.next_read none) t none) (round k (omega arith))
        ∙ get_or-set_self b.slots b.next_read none none (omega arith)
        ∙ sym (get_elem?_of_le q k (omega arith))
  ]

  removed-Represents : Represents c removed q
  unfolding removed
  removed-Represents = record {
    small = small;
    len = length-set b.slots b.next_read none ∙ len;
    read_in = omega arith;
    fits = omega arith;
    count = omega arith;
    write_at = write_at ∙ sym (shift (length q));
    held = removed_held;
  }

-- `consume` on a buffer that is not empty takes out the oldest line. Its search always ends, at
-- `next_read`. The line is printed if `matching` says so, and it leaves the buffer either way.
pub remove_refines :
    (c : Config) (b : Buffer) (line : Line) (q : List Line) (printed : Bool)
    → Represents c b (line ∷ q)
    → matching line c ≡ some printed
    → (b' : Buffer) × (remove c b ≡ taken line printed b') × Represents c b' q
unfolding emptied removed
remove_refines c b line q printed v m = (
  removed c b line q v,
  remove_eq c b line q v ∙ ap (emptied c b b.next_read line) m,
  removed-Represents c b line q v,
)

-- An unexpected search mode ends the process at the first line that is taken.
pub remove_exits :
    (c : Config) (b : Buffer) (line : Line) (q : List Line)
    → Represents c b (line ∷ q)
    → matching line c ≡ none
    → remove c b ≡ exited
unfolding emptied
remove_exits c b line q v m = remove_eq c b line q v ∙ ap (emptied c b b.next_read line) m

-- The two operations read backwards: what their results say of the queue.
pub insert_inv :
    (c : Config) (b b' : Buffer) (q : List Line) (line : Line)
    → Represents c b q
    → is_full c b ≡ false
    → insert c line b ≡ some b'
    → Represents c b' (q ++ line ∷ [])
insert_inv c b b' q line v h e =
    let (b₁, e₁, w) = insert_refines c b q line v (ground (arith, is_full_iff c b q v)) in
    subst (λ t. Represents c t (q ++ line ∷ [])) (cc) w

taken_inv :
    (c : Config) (b b' : Buffer) (line x : Line) (q : List Line) (printed : Bool) (o : Option Bool)
    → Represents c b (x ∷ q)
    → remove c b ≡ taken line printed b'
    → matching x c ≡ o
    → (x ≡ line) × (o ≡ some printed) × Represents c b' q
taken_inv c b b' line x q printed none v e m = cc (remove_exits c b x q v m)
taken_inv c b b' line x q printed (some printed') v e m =
    let (b₁, e₁, w) = remove_refines c b x q printed' v m in
    (cc, cc, subst (λ t. Represents c t q) (cc) w)

pub remove_inv :
    (c : Config) (b b' : Buffer) (line : Line) (q : List Line) (printed : Bool)
    → Represents c b q
    → b.filled_slots ≢ 0
    → remove c b ≡ taken line printed b'
    → (rest : List Line) × (q ≡ line ∷ rest)
      × (matching line c ≡ some printed)
      × Represents c b' rest
remove_inv c b b' line [] printed v h e = absurd (h v.count)
remove_inv c b b' line (x ∷ q) printed v h e =
    let (same, p, w) = taken_inv c b b' line x q printed (matching x c) v e refl in
    (q, ap (λ t. t ∷ q) same, ap (λ t. matching t c) (sym same) ∙ p, w)
