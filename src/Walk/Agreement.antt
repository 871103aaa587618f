-- ===== src/Walk/Agreement.antt =====
-- The two walks of lab2/GeislerWojciech/cw02/zad2/main.c compared.
use mathlib.Core.List.{Perm}
use mathlib.Core.List.Perm as Perms
use agh_operating_systems.Base.{ℕ, List, [], ◌∷◌, ◌++◌}
use agh_operating_systems.Base.Text.{CString}
use agh_operating_systems.Files.{
  Comparator, Entries, file, dir, back, special, none_left, more, join_paths,
}
use agh_operating_systems.Walk.{show_files, ftw_f, ftw_d, Visit}

-- The calls that `nftw` makes for the entries below a directory: FTW_D for a directory, and FTW_F for any
-- other entry that is no symbolic link; none for "." and "..".
abbrev pub visits_below : CString → Entries → List Visit
visits_below path none_left = []
visits_below path (more (file name mtime) entries) =
    record { path = join_paths path name; mtime = mtime; typeflag = ftw_f }
    ∷ visits_below path entries
visits_below path (more (dir name inner) entries) =
    record { path = join_paths path name; mtime = 0; typeflag = ftw_d }
    ∷ (visits_below (join_paths path name) inner ++ visits_below path entries)
visits_below path (more (back name) entries) = visits_below path entries
visits_below path (more (special name) entries) =
    record { path = join_paths path name; mtime = 0; typeflag = ftw_f } ∷ visits_below path entries

-- With the call for the directory itself.
abbrev pub visits_of : CString → Entries → List Visit
visits_of path entries =
    record { path = path; mtime = 0; typeflag = ftw_d } ∷ visits_below path entries

-- There are regular files and directories only: no symbolic links, pipes, sockets or devices.
abbrev pub IsPlain : Entries → Type 0
IsPlain none_left = Unit
IsPlain (more (file name mtime) entries) = IsPlain entries
IsPlain (more (dir name inner) entries) = IsPlain inner × IsPlain entries
IsPlain (more (back name) entries) = IsPlain entries
IsPlain (more (special name) entries) = ⊥

module _ (cmp : Comparator) (target : ℕ) (cwd : CString) where
  -- What is shown below a directory.
  abbrev shown : CString → Entries → List CString
  shown path none_left = []
  shown path (more (dir name inner) entries) =
      let path' = join_paths path name in
      (show_files cmp target cwd path' inner ++ shown path' inner) ++ shown path entries
  shown path (more (back name) entries) = shown path entries
  shown path (more (file name mtime) entries) = shown path entries
  shown path (more (special name) entries) = shown path entries
