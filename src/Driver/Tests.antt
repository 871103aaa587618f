-- ===== src/Driver/Tests.antt =====
-- Commands of lab1/GeislerWojciech/cw01/zad2/main.c on small tables.
use agh_operating_systems.Base.{
  ℕ, ◌+◌, ◌≤◌, ◌<◌, ◌≡◌, ◌≢◌, refl, false, none, some, List, [], ◌∷◌, arith, get_or,
}
use agh_operating_systems.Base.Int.{ℤ, pos}
use agh_operating_systems.Base.Text.{str_eq}
use agh_operating_systems.Blocks.{BlockArray, create_block, create_array}
use agh_operating_systems.Blocks.Nearest.{Summed, difference}
use agh_operating_systems.Driver.{create_filled, time_search, run_commands, add_name}
use agh_operating_systems.Driver.Filled.{time_search-create_filled}

abbrev rand : ℕ → ℕ → ℕ
rand i j = i + j

time_search-create_filled_example :
    (arr : BlockArray) × (n : ℕ) × (sums : List ℤ) × (create_filled rand 3 2 false []
      ≡ some (arr, []))
    × (time_search (arr, []) 0 ≡ some n)
    × (n < 3)
    × (n ≢ 0)
    × Summed arr.content sums
    × ((k : ℕ)
        → k < 3
        → k ≢ 0
        → difference sums (get_or sums 0 (pos 0)) n ≤ difference sums (get_or sums 0 (pos 0)) k)
time_search-create_filled_example =
    time_search-create_filled rand 3 2 [] 0 (omega arith) (omega arith) (omega arith) (omega arith)

-- "add 0" divides by zero, "add" with nothing behind it reads through `NULL`, "add 2" ends well.
add_zero : run_commands (λ s. get_or s 0 0) 1 rand 3 2 false 3 (add_name ∷ (0 ∷ []) ∷ []) [] ≡ none
unfolding str_eq create_array
add_zero = refl

add_nothing : run_commands (λ s. get_or s 0 0) 1 rand 3 2 false 3 (add_name ∷ []) [] ≡ none
unfolding str_eq create_array
add_nothing = refl

add_two : run_commands (λ s. get_or s 0 0) 1 rand 3 2 false 3 (add_name ∷ (2 ∷ []) ∷ []) [] ≡ some 0
unfolding str_eq create_block create_array
add_two = refl
