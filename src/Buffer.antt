-- ===== src/Buffer.antt =====
-- The bounded buffer of lab9/GeislerWojciech/cw09/zad1/main.c: the array `buff`, the count
-- `filled_slots`, and what one producer and one consumer do to them between taking and releasing
-- `filled_slots_mutex`. Threads are in the child Threads, the queue view in Queue.
pub mod Queue
pub mod Threads
mod Tests
use agh_operating_systems.Base.{
  ℕ, zero, suc, ◌+◌, ◌-◌, ◌%◌, Bool, true, false, Option, none, some, List, [], ◌∷◌, length, get_or,
  set, replicate, if◌then◌else◌, ◌==◌,
}
use agh_operating_systems.Base.Int.{ℤ, pos, as_int, eqb_ℤ, ltb_ℤ}

-- A zero-terminated line: its bytes, the end left out.
abbrev pub Line : Type 0
Line = List ℕ

-- `NULL` is `none`.
abbrev pub Slots : Type 0
Slots = List (Option Line)

-- `buffer`, with the counter `filled_slots` that its mutex guards beside it.
pub record Buffer : Type 0 where
  pub slots : Slots
  pub next_read : ℕ
  pub next_write : ℕ
  pub filled_slots : ℕ

-- `unexpected` stands for a value that `load_config` read and that is none of the three.
pub data SearchMode : Type 0 where
  smaller equal bigger unexpected : SearchMode

pub record Config : Type 0 where
  pub buffor_size : ℕ
  pub thread_ttl : ℤ
  pub threshold : ℤ
  pub search_mode : SearchMode

-- `none` is the branch that ends the process.
compare_length : SearchMode → ℤ → ℤ → Option Bool
compare_length bigger len threshold = some (ltb_ℤ threshold len)
compare_length equal len threshold = some (eqb_ℤ len threshold)
compare_length smaller len threshold = some (ltb_ℤ len threshold)
compare_length unexpected len threshold = none

unfoldable pub matching : Line → Config → Option Bool
unfolding compare_length
matching line c = compare_length c.search_mode (as_int (length line)) c.threshold

-- The buffer that `main` sets up, with `calloc`.
unfoldable pub init : ℕ → Buffer
init size = record { slots = replicate size none; next_read = 0; next_write = 0; filled_slots = 0 }

unfoldable pub is_full : Config → Buffer → Bool
is_full c b = eqb_ℤ (pos b.filled_slots) (as_int c.buffor_size)

abbrev is_null : Option Line → Bool
is_null none = true
is_null (some line) = false

-- The `do … while(true)` of `produce`: the first position with `NULL`, from `position` round the array.
-- On fuel; `none` is a search that goes on.
pub find_free : ℕ → ℕ → Slots → ℕ → Option ℕ
find_free zero size slots position = none
find_free (suc fuel) size slots position = elim (is_null (get_or slots position none)) [
  | true ↦ some position
  | false ↦ find_free fuel size slots ((position + 1) % size)
]

-- The same loop in `consume`: the first position with a line.
pub find_filled : ℕ → ℕ → Slots → ℕ → Option (ℕ × Line)
find_filled zero size slots position = none
find_filled (suc fuel) size slots position = elim (get_or slots position none) [
  | some line ↦ some (position, line)
  | none ↦ find_filled fuel size slots ((position + 1) % size)
]

-- `produce` from `size_t pos = buff.next_write` to the unlocking of the mutex.
unfoldable pub insert : Config → Line → Buffer → Option Buffer
unfolding find_free
insert c line b = elim (find_free c.buffor_size c.buffor_size b.slots b.next_write) [
  | none ↦ none
  | some position ↦ some (record {
    slots = set b.slots position (some line);
    next_read = b.next_read;
    next_write = (position + 1) % c.buffor_size;
    filled_slots = b.filled_slots + 1;
  })
]

-- `consume` from `size_t pos = buff.next_read` on. Beside the buffer it gives the line taken out
-- and whether `matching` held, so that the line was printed. `exited` is the `exit(1)` of `matching`.
pub data Taken : Type 0 where
  searching : Taken
  exited : Taken
  taken : (line : Line) → (printed : Bool) → Buffer → Taken

emptied : Config → Buffer → ℕ → Line → Option Bool → Taken
emptied c b position line none = exited
emptied c b position line (some printed) = taken line printed (record {
  slots = set b.slots position none;
  next_read = (position + 1) % c.buffor_size;
  next_write = b.next_write;
  filled_slots = b.filled_slots - 1;
})

unfoldable pub remove : Config → Buffer → Taken
unfolding find_filled emptied
remove c b = elim (find_filled c.buffor_size c.buffor_size b.slots b.next_read) [
  | none ↦ searching
  | some (position, line) ↦ emptied c b position line (matching line c)
]
