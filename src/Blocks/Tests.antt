-- ===== src/Blocks/Tests.antt =====
-- The theorems on lab1/GeislerWojciech/cw01/zad1/chararray.c at three blocks of eight bytes, made
-- through the code's own operations.
use agh_operating_systems.Base.{
  ℕ, zero, suc, ◌+◌, ◌≡◌, ◌≢◌, refl, ◌<◌, ◌≤◌, length, true, false, some, none, List, [], ◌∷◌,
  arith,
}
use agh_operating_systems.Base.Int.{ℤ, pos, ◌+ℤ◌}
use agh_operating_systems.Blocks.{
  BlockArray, Statics, create_array, create_block, get_block, delete_array, fill_str, fill_random,
  sum_block, find_nearest, all_blocks,
}
use agh_operating_systems.Blocks.Contents.{fill_random_lem, delete_array_lem}
use agh_operating_systems.Blocks.Nearest.{Summed, done, next, difference, find_nearest_lem}

abbrev statics : Statics
statics = (65 ∷ 0 ∷ 0 ∷ []) ∷ (90 ∷ 90 ∷ 0 ∷ []) ∷ (66 ∷ 0 ∷ 7 ∷ []) ∷ (64 ∷ 0 ∷ 0 ∷ []) ∷ []

abbrev arr : BlockArray
arr = record { content = []; blocks = 4; block_size = 3; use_static = true }

abbrev sums : List ℤ
sums = pos 65 ∷ pos 180 ∷ pos 66 ∷ pos 64 ∷ []

created : create_array 4 3 true ≡ arr
unfolding create_array
created = refl

zeroed :
    let (arr', statics') = create_block (create_array 2 3 false) [] 1 in
    get_block arr' statics' 1 ≡ some (0 ∷ 0 ∷ 0 ∷ [])
unfolding create_array create_block get_block
zeroed = refl

filled : fill_str (1 ∷ 2 ∷ 3 ∷ []) (65 ∷ 66 ∷ []) ≡ 65 ∷ 66 ∷ 3 ∷ []
unfolding fill_str
filled = refl

-- Two blocks are as near to the first; the one before is taken.
nearest : find_nearest arr statics 0 ≡ some 2
unfolding find_nearest ◌+ℤ◌
nearest = refl

sums-Summed : Summed (all_blocks arr statics) sums
unfolding all_blocks sum_block ◌+ℤ◌
sums-Summed = next refl (next refl (next refl (next refl done)))

find_nearest_example :
    (n : ℕ) × (find_nearest arr statics 0 ≡ some n)
    × (n < 4)
    × (n ≢ 0)
    × ((k : ℕ) → k < 4 → k ≢ 0 → difference sums (pos 65) n ≤ difference sums (pos 65) k)
    × ((k : ℕ) → k < n → k ≢ 0 → difference sums (pos 65) n < difference sums (pos 65) k)
find_nearest_example =
    find_nearest_lem arr statics 0 sums sums-Summed (omega arith) 1 (omega arith)
      (λ e. absurd (omega arith)) (omega arith) near
  where
    near : (k : ℕ) → k < 4 → k ≢ 0 → difference sums (pos 65) k ≤ 2147483647
    near zero lt ne = omega arith
    near (suc zero) lt ne = omega arith
    near (suc (suc zero)) lt ne = omega arith
    near (suc (suc (suc k))) lt ne = ground arith

-- A generator of growing numbers.
abbrev rand : ℕ → ℕ
rand i = 57 + i

letters : fill_random (1 ∷ 2 ∷ 3 ∷ 4 ∷ []) 3 rand ≡ 122 ∷ 65 ∷ 0 ∷ 4 ∷ []
unfolding fill_random
letters = refl

fill_random_run :
    (length (fill_random (1 ∷ 2 ∷ 3 ∷ 4 ∷ []) 3 rand) ≡ 4)
    × ((s : ℕ) × (sum_block (fill_random (1 ∷ 2 ∷ 3 ∷ 4 ∷ []) 3 rand) ≡ some (pos s))
        × (130 ≤ s)
        × (s ≤ 244))
fill_random_run =
    fill_random_lem (1 ∷ 2 ∷ 3 ∷ 4 ∷ []) 3 rand (omega arith) (omega arith) (omega arith)

-- The array of pointers with its second block made.
abbrev dynamic : BlockArray
dynamic = record {
  content = none ∷ some (0 ∷ 0 ∷ []) ∷ [];
  blocks = 2;
  block_size = 2;
  use_static = false;
}

made : create_block (create_array 2 2 false) [] 1 ≡ (dynamic, [])
unfolding create_array create_block
made = refl

dynamic_deleted : let (arr', statics') = delete_array dynamic [] in get_block arr' statics' 1 ≡ none
dynamic_deleted = delete_array_lem dynamic [] 1 (omega arith) (omega arith)

static_deleted :
    let (arr', statics') = delete_array arr statics in
    get_block arr' statics' 1 ≡ some (0 ∷ 90 ∷ 0 ∷ [])
static_deleted = delete_array_lem arr statics 1 (omega arith) (omega arith)
