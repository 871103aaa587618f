-- ===== src/Blocks/Contents.antt =====
-- What the blocks of lab1/GeislerWojciech/cw01/zad1/chararray.c hold after `fill_random`, and what
-- `delete_array` leaves of them.
use agh_operating_systems.Base.{
  ℕ, zero, suc, ◌+◌, ◌-◌, ◌*◌, ◌%◌, ◌≤◌, ◌<◌, ◌≡◌, ◌≢◌, refl, ◌∙◌, some, none, Option, [], ◌∷◌,
  ◌++◌, length, length-append, length-drop, length-set, get_or, set, drop, arith, Bool,
  if◌then◌else◌, ℕ_discrete,
}
use agh_operating_systems.Base.Arrays.{get_or-set_self, get_or-set_ne}
use agh_operating_systems.Base.Int.{pos, ◌+ℤ◌}
use agh_operating_systems.Blocks.{
  Block, BlockArray, Statics, get_block, delete_block, delete_blocks, delete_array, random_bytes,
  fill_random, sum_from, sum_block,
}

length-random_bytes : (n : ℕ) (rand : ℕ → ℕ) (i : ℕ) → length (random_bytes n rand i) ≡ n
unfolding random_bytes
length-random_bytes zero rand i = refl
length-random_bytes (suc n) rand i = omega (arith, length-random_bytes n rand (i + 1))

sum_from-random_bytes :
    (n : ℕ) (rand : ℕ → ℕ) (i acc : ℕ) (rest : Block)
    → acc + 122 * n < 2147483648
    → (s : ℕ) × (sum_from (pos acc) (random_bytes n rand i ++ 0 ∷ rest) ≡ some (pos s))
      × (acc + 65 * n ≤ s)
      × (s ≤ acc + 122 * n)
unfolding random_bytes sum_from ◌+ℤ◌
sum_from-random_bytes zero rand i acc rest fits = (acc, refl, omega arith, omega arith)
sum_from-random_bytes (suc n) rand i acc rest fits =
    let c = rand i % 58 + 65 in
    let (s, e, low, high) = sum_from-random_bytes n rand (i + 1) (acc + c) rest (omega arith) in
    (s, ground arith, omega arith, omega arith)

-- `fill_random` keeps the length of a block that has room for `size` bytes, and `sum_block` finds the
-- end of the result: its sum is that of `size - 1` letters from 'A' to 'z', which an `int` holds up to
-- 17.6 million bytes.
pub fill_random_lem :
    (block : Block) (size : ℕ) (rand : ℕ → ℕ)
    → 0 < size
    → size ≤ length block
    → size ≤ 17600000
    → (length (fill_random block size rand) ≡ length block)
      × ((s : ℕ) × (sum_block (fill_random block size rand) ≡ some (pos s))
          × (65 * (size - 1) ≤ s)
          × (s ≤ 122 * (size - 1)))
unfolding fill_random sum_block
fill_random_lem block size rand h room small = (
  omega (
    arith,
    length-append (random_bytes (size - 1) rand 0) (0 ∷ drop size block),
    length-random_bytes (size - 1) rand 0,
    length-drop size block,
  ),
  let (s, e, low, high) =
        sum_from-random_bytes (size - 1) rand 0 0 (drop size block) (omega arith) in
      (s, e, omega arith, omega arith),
)

-- What a deleted block is: no block, or a static row that is an empty string.
abbrev pub deleted : Bool → Block → Option Block
deleted use_static row = if use_static then some (set row 0 0) else none

-- The bounds of an access to the `i`-th block.
abbrev pub HasBlock : BlockArray → Statics → ℕ → Type 0
HasBlock arr statics i = i < (if arr.use_static then length statics else length arr.content)

delete_block-get_ne :
    (arr : BlockArray) (statics : Statics) (k i : ℕ)
    → k ≢ i
    → let (arr', statics') = delete_block arr statics k in
      get_block arr' statics' i ≡ get_block arr statics i
unfolding delete_block get_block
delete_block-get_ne arr statics k i h = ground (
  arith,
  get_or-set_ne arr.content k i none none h,
  get_or-set_ne statics k i (set (get_or statics k []) 0 0) [] h,
)

delete_block-get_self :
    (arr : BlockArray) (statics : Statics) (i : ℕ)
    → HasBlock arr statics i
    → let (arr', statics') = delete_block arr statics i in
      get_block arr' statics' i ≡ deleted arr.use_static (get_or statics i [])
unfolding delete_block get_block
delete_block-get_self arr statics i h = ground (
  arith,
  get_or-set_self arr.content i none none,
  get_or-set_self statics i (set (get_or statics i []) 0 0) [],
)

delete_block-HasBlock :
    (arr : BlockArray) (statics : Statics) (k i : ℕ)
    → HasBlock arr statics i
    → let (arr', statics') = delete_block arr statics k in HasBlock arr' statics' i
unfolding delete_block
delete_block-HasBlock arr statics k i room =
    ground
      (arith, length-set arr.content k none, length-set statics k (set (get_or statics k []) 0 0))

-- The other blocks, as they are to be left.
delete_block-deleted :
    (arr : BlockArray) (statics : Statics) (k i : ℕ)
    → k ≢ i
    → let (arr', statics') = delete_block arr statics k in
      deleted arr'.use_static (get_or statics' i []) ≡ deleted arr.use_static (get_or statics i [])
unfolding delete_block
delete_block-deleted arr statics k i h =
    ground (arith, get_or-set_ne statics k i (set (get_or statics k []) 0 0) [] h)

delete_blocks-before :
    (n k i : ℕ) (arr : BlockArray) (statics : Statics)
    → i < k
    → let (arr', statics') = delete_blocks n k arr statics in
      get_block arr' statics' i ≡ get_block arr statics i
unfolding delete_blocks
delete_blocks-before zero k i arr statics h = refl
delete_blocks-before (suc n) k i arr statics h =
    let (arr', statics') = delete_block arr statics k in
    delete_blocks-before n (k + 1) i arr' statics' (omega arith)
    ∙ delete_block-get_ne arr statics k i (λ e. absurd (omega arith))

delete_blocks-get :
    (n k i : ℕ) (arr : BlockArray) (statics : Statics)
    → k ≤ i
    → i < k + n
    → HasBlock arr statics i
    → let (arr', statics') = delete_blocks n k arr statics in
      get_block arr' statics' i ≡ deleted arr.use_static (get_or statics i [])
unfolding delete_blocks
delete_blocks-get zero k i arr statics h lt room = absurd (omega arith)
delete_blocks-get (suc n) k i arr statics h lt room =
    let (arr', statics') = delete_block arr statics k in
    elim (ℕ_discrete k i) [
      | yes e ↦
          delete_blocks-before n (k + 1) i arr' statics' (omega arith)
          ∙ rw e (delete_block-get_self arr statics i room)
      | no ne ↦
          delete_blocks-get n (k + 1) i arr' statics' (omega arith) (omega arith)
            (delete_block-HasBlock arr statics k i room)
          ∙ delete_block-deleted arr statics k i ne
    ]

-- After `delete_array` every block of an array in bounds is gone: its pointer is `NULL`, or its static
-- row is an empty string with the other bytes as they were.
pub delete_array_lem :
    (arr : BlockArray) (statics : Statics) (i : ℕ)
    → i < arr.blocks
    → HasBlock arr statics i
    → let (arr', statics') = delete_array arr statics in
      get_block arr' statics' i ≡ deleted arr.use_static (get_or statics i [])
unfolding delete_array
delete_array_lem arr statics i h room =
    delete_blocks-get arr.blocks 0 i arr statics (omega arith) (omega arith) room
