-- ===== src/Driver.antt =====
-- The driver lab1/GeislerWojciech/cw01/zad2/main.c of the library in Blocks: what its commands do to the
-- array, without the measured times. `none` is a failed assertion, an access through `NULL`, or the
-- division by zero that `print_timediff` comes to when nothing was repeated.
pub mod Filled
mod Tests
use agh_operating_systems.Base.{
  ℕ, zero, suc, ◌+◌, ◌≤◌, Bool, true, false, Option, none, some, List, [], ◌∷◌, set, leb, ◌==◌,
  if◌then◌else◌,
}
use agh_operating_systems.Base.Text.{CString, str_eq}
use agh_operating_systems.Blocks.{
  Block, BlockArray, Statics, create_array, get_block, create_block, delete_block, delete_array,
  fill_random, find_nearest,
}

-- The array with the static rows.
abbrev pub Memory : Type 0
Memory = BlockArray × Statics

-- A write through the pointer that `get_block` gives.
abbrev pub put_block : BlockArray → Statics → ℕ → Block → Memory
put_block arr statics i block =
    if arr.use_static
    then (arr, set statics i block)
    else (record arr { content = set arr.content i (some block) }, statics)

-- The body of the loop of `create_filled`; `rand i` are the numbers that block `i` meets.
abbrev pub fill_block : (ℕ → ℕ → ℕ) → ℕ → Memory → Option Memory
fill_block rand i (arr, statics) =
    let (arr', statics') = create_block arr statics i in
    elim (get_block arr' statics' i) [
      | none ↦ none
      | some block ↦ some (put_block arr' statics' i (fill_random block arr'.block_size (rand i)))
    ]

-- The loop, from block `i` on with `n` left.
abbrev pub fill_blocks : (ℕ → ℕ → ℕ) → ℕ → ℕ → Memory → Option Memory
fill_blocks rand zero i memory = some memory
fill_blocks rand (suc n) i memory = elim (fill_block rand i memory) [
  | none ↦ none
  | some memory' ↦ fill_blocks rand n (suc i) memory'
]

abbrev pub create_filled : (ℕ → ℕ → ℕ) → ℕ → ℕ → Bool → Statics → Option Memory
create_filled rand blocks block_size use_static statics =
    fill_blocks rand blocks 0 (create_array blocks block_size use_static, statics)

-- The division in `print_timing` and `print_timediff`.
abbrev pub print_timing : {A : Type 0} → ℕ → A → Option A
print_timing cycles result = if cycles == 0 then none else some result

abbrev pub create_blocks : ℕ → ℕ → Memory → Memory
create_blocks zero i memory = memory
create_blocks (suc n) i (arr, statics) = create_blocks n (suc i) (create_block arr statics i)

abbrev pub remove_blocks : ℕ → ℕ → Memory → Memory
remove_blocks zero i memory = memory
remove_blocks (suc n) i (arr, statics) = remove_blocks n (suc i) (delete_block arr statics i)

abbrev pub time_delete : Memory → ℕ → Option Memory
time_delete (arr, statics) blocks =
    if leb blocks arr.blocks
    then print_timing blocks (remove_blocks blocks 0 (arr, statics))
    else none

abbrev pub time_add : Memory → ℕ → Option Memory
time_add (arr, statics) blocks =
    if leb blocks arr.blocks
    then print_timing blocks (create_blocks blocks 0 (arr, statics))
    else none

-- The loop of `time_add_delete`.
abbrev pub add_delete : ℕ → Memory → Memory
add_delete zero memory = memory
add_delete (suc n) (arr, statics) =
    let (arr', statics') = create_block arr statics 0 in add_delete n (delete_block arr' statics' 0)

abbrev pub time_add_delete : Memory → ℕ → Option Memory
time_add_delete memory cycles = print_timing cycles (add_delete cycles memory)

-- `time_search`: the array does not change, so that each repetition finds the same block.
abbrev pub time_search : Memory → ℕ → Option ℕ
time_search (arr, statics) target = find_nearest arr statics target

-- The loop of `time_create`: the arrays are deleted one by one after all of them were created.
abbrev pub create_arrays : ℕ → ℕ → ℕ → Bool → Statics → List BlockArray × Statics
create_arrays zero blocks block_size use_static statics = ([], statics)
create_arrays (suc n) blocks block_size use_static statics =
    let (arr, statics') =
      create_blocks blocks 0 (create_array blocks block_size use_static, statics) in
    let (arrays, statics'') = create_arrays n blocks block_size use_static statics' in
    (arr ∷ arrays, statics'')

abbrev pub delete_arrays : List BlockArray → Statics → Statics
delete_arrays [] statics = statics
delete_arrays (arr ∷ arrays) statics =
    let (arr', statics') = delete_array arr statics in delete_arrays arrays statics'

-- `cycles` is what the quotient of ALLOWED_MEMORY by the size of the table gives.
abbrev pub time_create : ℕ → ℕ → ℕ → Bool → Statics → Option Statics
time_create cycles blocks block_size use_static statics =
    let (arrays, statics') = create_arrays cycles blocks block_size use_static statics in
    print_timing cycles (delete_arrays arrays statics')

-- The names of the commands.
abbrev pub create_table_name : CString
create_table_name = 99 ∷ 114 ∷ 101 ∷ 97 ∷ 116 ∷ 101 ∷ 95 ∷ 116 ∷ 97 ∷ 98 ∷ 108 ∷ 101 ∷ []

abbrev pub search_element_name : CString
search_element_name =
    115 ∷ 101 ∷ 97 ∷ 114 ∷ 99 ∷ 104 ∷ 95 ∷ 101 ∷ 108 ∷ 101 ∷ 109 ∷ 101 ∷ 110 ∷ 116 ∷ []

abbrev pub remove_name : CString
remove_name = 114 ∷ 101 ∷ 109 ∷ 111 ∷ 118 ∷ 101 ∷ []

abbrev pub add_name : CString
add_name = 97 ∷ 100 ∷ 100 ∷ []

abbrev pub remove_and_add_name : CString
remove_and_add_name =
    114 ∷ 101 ∷ 109 ∷ 111 ∷ 118 ∷ 101 ∷ 95 ∷ 97 ∷ 110 ∷ 100 ∷ 95 ∷ 97 ∷ 100 ∷ 100 ∷ []

-- What a command leaves of the static rows.
abbrev pub rows : Option Memory → Option Statics
rows none = none
rows (some (arr, statics)) = some statics

abbrev pub search_rows : Option Memory → ℕ → Option Statics
search_rows none target = none
search_rows (some memory) target = elim (time_search memory target) [
  | none ↦ none
  | some n ↦ some memory.1
]

abbrev pub remove_rows : Option Memory → ℕ → Option Statics
remove_rows none count = none
remove_rows (some memory) count = rows (time_delete memory count)

-- `strtoul` is the library's, `cycles` the quotient that `time_create` makes; the other arguments are those
-- that all commands share.
module _ (strtoul : CString → ℕ) (cycles : ℕ) (rand : ℕ → ℕ → ℕ) (blocks block_size : ℕ)
    (use_static : Bool) where
  -- A command with the number that follows it.
  abbrev pub run_command : CString → ℕ → Statics → Option (Option Statics)
  unfolding str_eq
  run_command command number statics =
      if str_eq command search_element_name
      then some (search_rows (create_filled rand blocks block_size use_static statics) number)
      else if str_eq command remove_name
      then some (remove_rows (create_filled rand blocks block_size use_static statics) number)
      else if str_eq command add_name
      then some (rows (time_add (create_array blocks block_size use_static, statics) number))
      else if str_eq command remove_and_add_name
      then some (rows (time_add_delete (create_array blocks block_size use_static, statics) number))
      else none

  -- The loop of `main` for the next `n` commands: the exit status, `none` where the process is killed. The
  -- number behind the last argument is read through the `NULL` at the end of `argv`.
  abbrev pub run_commands : ℕ → List CString → Statics → Option ℕ
  unfolding str_eq
  run_commands zero args statics = some 0
  run_commands (suc n) [] statics = some 0
  run_commands (suc n) (command ∷ args) statics =
      if str_eq command create_table_name
      then elim (time_create cycles blocks block_size use_static statics) [
        | none ↦ none
        | some statics' ↦ run_commands n args statics'
      ]
      else elim args [
        | [] ↦ elim (run_command command 0 statics) [ none ↦ some 2 | some result ↦ none ]
        | number ∷ rest ↦ elim (run_command command (strtoul number) statics) [
          | none ↦ some 2
          | some result ↦ elim result [ none ↦ none | some statics' ↦ run_commands n rest statics' ]
        ]
      ]
