-- ===== src/Blocks.antt =====
-- The library of blocks of characters of lab1/GeislerWojciech/cw01/zad1/chararray.c. A block is the
-- list of its bytes; a block behind a pointer is an option, with `none` for `NULL`. The global array
-- `static_content` is a state of its own.
pub mod Contents
pub mod Nearest
mod Tests
use agh_operating_systems.Base.{
  ℕ, zero, suc, ◌+◌, ◌-◌, ◌%◌, Bool, true, false, Option, none, some, List, [], ◌∷◌, ◌++◌, length,
  ltb, ◌==◌, if◌then◌else◌, get_or, set, take, drop, replicate,
}
use agh_operating_systems.Base.Int.{ℤ, pos, negsuc, ◌+ℤ◌, pos_part, neg_part, ltb_ℤ}
use agh_operating_systems.Base.Text.{CString}

abbrev pub Block : Type 0
Block = List ℕ

-- `array`
pub record BlockArray : Type 0 where
  pub content : List (Option Block)
  pub blocks : ℕ
  pub block_size : ℕ
  pub use_static : Bool

-- `static_content`
abbrev pub Statics : Type 0
Statics = List Block

unfoldable pub create_array : ℕ → ℕ → Bool → BlockArray
create_array blocks_count block_size use_static = record {
  content = if use_static then [] else replicate blocks_count none;
  blocks = blocks_count;
  block_size = block_size;
  use_static = use_static;
}

-- `get_block`; a static block is always there.
unfoldable pub get_block : BlockArray → Statics → ℕ → Option Block
get_block arr statics i =
    if arr.use_static then some (get_or statics i []) else get_or arr.content i none

-- `calloc` makes a zeroed block; in the static array `memset` zeroes as many bytes.
unfoldable pub create_block : BlockArray → Statics → ℕ → BlockArray × Statics
create_block arr statics i =
    if arr.use_static
    then (
      arr,
      set statics i (replicate arr.block_size 0 ++ drop arr.block_size (get_or statics i [])),
    )
    else (record arr { content = set arr.content i (some (replicate arr.block_size 0)) }, statics)

unfoldable pub delete_block : BlockArray → Statics → ℕ → BlockArray × Statics
delete_block arr statics i =
    if arr.use_static
    then (arr, set statics i (set (get_or statics i []) 0 0))
    else (record arr { content = set arr.content i none }, statics)

-- The loop of `delete_array`, with `n` blocks left from `i` on.
pub delete_blocks : ℕ → ℕ → BlockArray → Statics → BlockArray × Statics
unfolding delete_block
delete_blocks zero i arr statics = (arr, statics)
delete_blocks (suc n) i arr statics =
    let (arr', statics') = delete_block arr statics i in delete_blocks n (i + 1) arr' statics'

pub delete_array : BlockArray → Statics → BlockArray × Statics
unfolding delete_blocks
delete_array arr statics = delete_blocks arr.blocks 0 arr statics

-- `fill`: the first `size` bytes of `value` are copied.
pub fill : Block → List ℕ → ℕ → Block
fill block value size = take size value ++ drop size block

-- `fill_str` copies the characters of a string, without its end.
pub fill_str : Block → CString → Block
unfolding fill
fill_str block value = fill block value (length value)

-- The loop of `fill_random` for the next `n` bytes, with the values of `rand()`.
pub random_bytes : ℕ → (ℕ → ℕ) → ℕ → Block
random_bytes zero rand i = []
random_bytes (suc n) rand i = (rand i % (122 - 65 + 1) + 65) ∷ random_bytes n rand (i + 1)

-- `fill_random`. A block of size 0 is not supported: `size - 1` would wrap round.
pub fill_random : Block → ℕ → (ℕ → ℕ) → Block
unfolding random_bytes
fill_random block size rand = random_bytes (size - 1) rand 0 ++ (0 ∷ drop size block)

-- The value of a `char`, which is signed.
abbrev pub as_char : ℕ → ℤ
as_char b = if ltb b 128 then pos b else negsuc (255 - b)

-- Whether an `int` holds the number.
abbrev pub fits_int : ℤ → Bool
fits_int z = if ltb_ℤ z (pos 2147483648) then ltb_ℤ (negsuc 2147483648) z else false

-- The loop of `sum_block`; `none` is a read behind the end of the block, or a sum that overflows the `int`,
-- which is undefined in C.
pub sum_from : ℤ → Block → Option ℤ
sum_from sum [] = none
sum_from sum (b ∷ block) = elim (b == 0) [
  | true ↦ some sum
  | false ↦ elim (fits_int (sum +ℤ as_char b)) [
    | true ↦ sum_from (sum +ℤ as_char b) block
    | false ↦ none
  ]
]

pub sum_block : Block → Option ℤ
unfolding sum_from
sum_block block = sum_from (pos 0) block

-- The number that `abs(s - t)` stands for.
abbrev pub distance : ℤ → ℤ → ℕ
distance s t =
    (pos_part s + neg_part t - (pos_part t + neg_part s))
    + (pos_part t + neg_part s - (pos_part s + neg_part t))

abbrev pub int_max : ℕ
int_max = 2147483647

pub record Best : Type 0 where
  pub diff : ℕ
  pub index : ℕ

-- The body of the loop of `find_nearest` at block `i`, whose sum is `sum`; `none` where the difference or
-- its absolute value overflows the `int`.
pub compare_block : ℕ → ℤ → Best → ℤ → Option Best
compare_block i target_sum best sum =
    if ltb int_max (distance sum target_sum)
    then none
    else if ltb (distance sum target_sum) best.diff
    then some (record { diff = distance sum target_sum; index = i })
    else some best

-- The loop, over the blocks from the `i`-th on; `none` is a read through `NULL` or behind a block, or an
-- overflow.
pub scan_blocks : List (Option Block) → ℕ → ℕ → ℤ → Best → Option Best
unfolding compare_block sum_block
scan_blocks [] i target target_sum best = some best
scan_blocks (block ∷ blocks) i target target_sum best = elim (i == target) [
  | true ↦ scan_blocks blocks (i + 1) target target_sum best
  | false ↦ elim block [
    | none ↦ none
    | some bytes ↦ elim (sum_block bytes) [
      | none ↦ none
      | some sum ↦ elim (compare_block i target_sum best sum) [
        | none ↦ none
        | some best' ↦ scan_blocks blocks (i + 1) target target_sum best'
      ]
    ]
  ]
]

-- The rows of the static array, all of them behind a pointer.
abbrev pub some_blocks : List Block → List (Option Block)
some_blocks [] = []
some_blocks (b ∷ bs) = some b ∷ some_blocks bs

-- The blocks that the loop goes through.
unfoldable pub all_blocks : BlockArray → Statics → List (Option Block)
all_blocks arr statics =
    if arr.use_static then some_blocks (take arr.blocks statics) else take arr.blocks arr.content

-- `find_nearest`
pub find_nearest : BlockArray → Statics → ℕ → Option ℕ
unfolding scan_blocks all_blocks sum_block
find_nearest arr statics target = elim (get_or (all_blocks arr statics) target none) [
  | none ↦ none
  | some bytes ↦ elim (sum_block bytes) [
    | none ↦ none
    | some target_sum ↦
        elim (scan_blocks (all_blocks arr statics) 0 target target_sum
          (record { diff = int_max; index = 0 })) [ none ↦ none | some best ↦ some best.index ]
  ]
]
