-- ===== src/Files/Tests.antt =====
-- The theorems on lab3/GeislerWojciech/cw03/zad1/main.c at a directory with a directory in it.
use mathlib.Core.List.{Perm}
use agh_operating_systems.Base.{arith, inr, ◌≡◌, refl, some, List, [], ◌∷◌, length}
use agh_operating_systems.Base.Text.{CString}
use agh_operating_systems.Files.{
  after, Entries, file, dir, back, dot_dot, special, none_left, more, join_paths, mode_to_str,
  display_dir,
}
use agh_operating_systems.Files.Listing.{IsTree, selected, flatten, display_dir_complete}
use agh_operating_systems.Files.Modes.{read_mode, read_mode-mode_to_str}

-- "a", "s/b" and "c" in ".", of which "c" is too old.
abbrev tree : Entries
tree = more (dir (115 ∷ []) (more (file (98 ∷ []) 259200) none_left)) (
    more (back dot_dot) (
      more (file (97 ∷ []) 172800)
        (more (special (112 ∷ [])) (more (file (99 ∷ []) 86399) none_left))))

joined :
    (join_paths (46 ∷ []) (97 ∷ []) ≡ 46 ∷ 47 ∷ 97 ∷ [])
    × (join_paths (46 ∷ 47 ∷ []) (97 ∷ []) ≡ 46 ∷ 47 ∷ 97 ∷ [])
    × (join_paths (46 ∷ []) (47 ∷ 97 ∷ []) ≡ 47 ∷ 97 ∷ [])
unfolding join_paths
joined = (refl, refl, refl)

displayed :
    display_dir after 86400 (46 ∷ []) tree
    ≡ some (((46 ∷ 47 ∷ 97 ∷ []) ∷ []) ∷ ((46 ∷ 47 ∷ 115 ∷ 47 ∷ 98 ∷ []) ∷ []) ∷ [])
unfolding display_dir
displayed = refl

tree-IsTree : IsTree tree
tree-IsTree = ((λ e. ground arith, λ e. ground arith), tt, (inr refl, tt))

display_dir_complete_example :
    (printed : List (List CString)) × (display_dir after 86400 (46 ∷ []) tree ≡ some printed)
    × Perm (flatten printed) (selected after 86400 (46 ∷ []) tree)
display_dir_complete_example = display_dir_complete after 86400 (46 ∷ []) tree tree-IsTree

-- Octal 640 behind the bits for a regular file.
mode : mode_to_str 33184 ≡ 114 ∷ 119 ∷ 45 ∷ 114 ∷ 45 ∷ 45 ∷ 45 ∷ 45 ∷ 45 ∷ []
unfolding mode_to_str
mode = refl

read_mode-mode_to_str_run : (length (mode_to_str 33184) ≡ 9) × (read_mode (mode_to_str 33184) ≡ 416)
read_mode-mode_to_str_run = read_mode-mode_to_str 33184
