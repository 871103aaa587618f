-- ===== src/Files.antt =====
-- The listing of files by date of lab3/GeislerWojciech/cw03/zad1/main.c. A directory is a tree; every
-- process that `display_dir` forks prints the files of one directory, so what it does is the list of
-- the processes with what each prints. `readdir` gives the entries in the order of the tree, "." and ".."
-- among them.
pub mod Listing
pub mod Modes
mod Tests
use agh_operating_systems.Base.{
  ℕ, zero, suc, ◌+◌, ◌-◌, ◌*◌, ◌/◌, ◌%◌, ◌^◌, Bool, true, false, ◌&&◌, ◌||◌, Option, none, some,
  List, [], ◌∷◌, ◌++◌, length, ltb, ◌==◌, if◌then◌else◌, get_or, replicate, set,
}
use agh_operating_systems.Base.Text.{CString, str_eq}

pub is_path_absolute : CString → Bool
is_path_absolute path = get_or path 0 0 == 47

-- `join_paths`. The last byte of an empty `path1` would be read before its start; it is no slash here.
pub join_paths : CString → CString → CString
unfolding is_path_absolute
join_paths path1 path2 =
    if is_path_absolute path2
    then path2
    else if get_or path1 (length path1 - 1) 0 == 47
    then path1 ++ path2
    else path1 ++ 47 ∷ path2

-- "rwxrwxrwx"
abbrev pub permissions : CString
permissions = 114 ∷ 119 ∷ 120 ∷ 114 ∷ 119 ∷ 120 ∷ 114 ∷ 119 ∷ 120 ∷ []

-- The loop of `mode_to_str`, with the mask `2 ^ (n - 1)`, for the bytes from `pos` on.
pub mode_from : ℕ → ℕ → ℕ → CString
mode_from zero mode pos = []
mode_from (suc n) mode pos =
    (if mode / 2 ^ n % 2 == 1 then get_or permissions pos 0 else 45) ∷ mode_from n mode (pos + 1)

pub mode_to_str : ℕ → CString
unfolding mode_from
mode_to_str mode = mode_from 9 mode 0

-- '<', '=' and '>'; `main` refuses any other comparator.
pub data Comparator : Type 0 where
  before : Comparator
  same_day : Comparator
  after : Comparator

-- `is_time_allowed`, on times in seconds from 1970 on.
pub is_time_allowed : Comparator → ℕ → ℕ → Bool
is_time_allowed before target mtime = ltb (mtime / (3600 * 24)) (target / (3600 * 24))
is_time_allowed same_day target mtime = mtime / (3600 * 24) == target / (3600 * 24)
is_time_allowed after target mtime = ltb (target / (3600 * 24)) (mtime / (3600 * 24))

mutual
  -- An entry of a directory: a regular file with its time, a directory, the directory itself or the one
  -- above under its name there, or something else.
  pub data Entry : Type 0 where
    file : CString → ℕ → Entry
    dir : CString → Entries → Entry
    back : CString → Entry
    special : CString → Entry

  pub data Entries : Type 0 where
    none_left : Entries
    more : Entry → Entries → Entries

-- The paths that one process prints: the first loop of `display_dir`.
pub print_files : Comparator → ℕ → CString → Entries → List CString
unfolding join_paths is_time_allowed
print_files cmp target path none_left = []
print_files cmp target path (more (file name mtime) entries) =
    let rest = print_files cmp target path entries in
    if is_time_allowed cmp target mtime then join_paths path name ∷ rest else rest
print_files cmp target path (more (dir name inner) entries) = print_files cmp target path entries
print_files cmp target path (more (back name) entries) = print_files cmp target path entries
print_files cmp target path (more (special name) entries) = print_files cmp target path entries

-- "." and ".."
abbrev pub dot : CString
dot = 46 ∷ []

abbrev pub dot_dot : CString
dot_dot = 46 ∷ 46 ∷ []

-- The test of a name in the second loop of `display_dir`.
abbrev pub goes_down : CString → Bool
goes_down name = if str_eq name dot then false else if str_eq name dot_dot then false else true

-- The two groups of processes, where both end.
abbrev pub join {ℓ} : {A : Type ℓ} → Option (List A) → Option (List A) → Option (List A)
join none ys = none
join (some xs) none = none
join (some xs) (some ys) = some (xs ++ ys)

-- What the processes that are forked in the second loop of `display_dir` print, those that they fork
-- behind them. `none` is a descent into the directory itself or the one above, which forks without end.
pub descend : Comparator → ℕ → CString → Entries → Option (List (List CString))
unfolding print_files str_eq
descend cmp target path none_left = some []
descend cmp target path (more (dir name inner) entries) =
    let path' = join_paths path name in
    let below =
      join (some (print_files cmp target path' inner ∷ [])) (descend cmp target path' inner) in
    let rest = descend cmp target path entries in if goes_down name then join below rest else rest
descend cmp target path (more (back name) entries) =
    let rest = descend cmp target path entries in if goes_down name then none else rest
descend cmp target path (more (file name mtime) entries) = descend cmp target path entries
descend cmp target path (more (special name) entries) = descend cmp target path entries

-- `display_dir`, the process for the directory itself first.
pub display_dir : Comparator → ℕ → CString → Entries → Option (List (List CString))
unfolding descend
display_dir cmp target path entries =
    join (some (print_files cmp target path entries ∷ [])) (descend cmp target path entries)
