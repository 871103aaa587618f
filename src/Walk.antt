-- ===== src/Walk.antt =====
-- The listing of files by date of lab2/GeislerWojciech/cw02/zad2/main.c, once with `opendir` and once with
-- `nftw`, whose visits are a parameter. Paths, dates and the tree are those of Files, where the source has
-- the same text.
pub mod Agreement
mod Tests
use mathlib.Core.List.{filter_map}
use agh_operating_systems.Base.{
  ℕ, Bool, true, false, Option, none, some, List, [], ◌∷◌, ◌++◌, if◌then◌else◌,
}
use agh_operating_systems.Base.Text.{CString, str_eq}
use agh_operating_systems.Files.{
  Comparator, Entries, file, dir, back, special, none_left, more, is_path_absolute, join_paths,
  is_time_allowed, goes_down, join,
}

-- `cwd` is the working directory.
abbrev pub mk_path_absolute : CString → CString → CString
mk_path_absolute cwd path = if is_path_absolute path then path else join_paths cwd path

-- The first loop of `display_dir`: the paths that `print_file` shows.
abbrev pub show_files : Comparator → ℕ → CString → CString → Entries → List CString
show_files cmp target cwd path none_left = []
show_files cmp target cwd path (more (file name mtime) entries) =
    let rest = show_files cmp target cwd path entries in
    if is_time_allowed cmp target mtime
    then mk_path_absolute cwd (join_paths path name) ∷ rest
    else rest
show_files cmp target cwd path (more (dir name inner) entries) =
    show_files cmp target cwd path entries
show_files cmp target cwd path (more (back name) entries) = show_files cmp target cwd path entries
show_files cmp target cwd path (more (special name) entries) =
    show_files cmp target cwd path entries

-- The second loop, with the calls of `display_dir` for the subdirectories. `none` is a descent into the
-- directory itself or the one above, which never ends.
pub show_below : Comparator → ℕ → CString → CString → Entries → Option (List CString)
unfolding str_eq
show_below cmp target cwd path none_left = some []
show_below cmp target cwd path (more (dir name inner) entries) =
    let path' = join_paths path name in
    let below =
      join (some (show_files cmp target cwd path' inner)) (show_below cmp target cwd path' inner) in
    let rest = show_below cmp target cwd path entries in
    if goes_down name then join below rest else rest
show_below cmp target cwd path (more (back name) entries) =
    let rest = show_below cmp target cwd path entries in if goes_down name then none else rest
show_below cmp target cwd path (more (file name mtime) entries) =
    show_below cmp target cwd path entries
show_below cmp target cwd path (more (special name) entries) =
    show_below cmp target cwd path entries

pub display_dir : Comparator → ℕ → CString → CString → Entries → Option (List CString)
unfolding show_below
display_dir cmp target cwd path entries =
    join (some (show_files cmp target cwd path entries)) (show_below cmp target cwd path entries)

-- The type flag that `nftw` hands over.
pub data TypeFlag : Type 0 where
  ftw_f ftw_d ftw_other : TypeFlag

-- What a call of the callback gets.
pub record Visit : Type 0 where
  pub path : CString
  pub mtime : ℕ
  pub typeflag : TypeFlag

abbrev pub nftw_callback : Comparator → ℕ → CString → Visit → Option CString
nftw_callback cmp target cwd visit = elim visit.typeflag [
  | ftw_f ↦
      if is_time_allowed cmp target visit.mtime
      then some (mk_path_absolute cwd visit.path)
      else none
  | _ ↦ none
]

-- `display_dir_nftw`, where `nftw` makes these visits.
abbrev pub display_dir_nftw : Comparator → ℕ → CString → List Visit → List CString
display_dir_nftw cmp target cwd visits = filter_map (nftw_callback cmp target cwd) visits
