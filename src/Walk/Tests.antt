-- ===== src/Walk/Tests.antt =====
-- A directory with one file and a subdirectory with another, visited depth first.
use mathlib.Core.List.{Perm}
use agh_operating_systems.Base.{List, [], ◌∷◌}
use agh_operating_systems.Files.{Entries, file, dir, back, dot, dot_dot, none_left, more}

abbrev tree : Entries
tree =
    more (dir (100 ∷ []) (more (back dot_dot) (more (file (98 ∷ []) 90000) none_left)))
      (more (back dot) (more (file (97 ∷ []) 200000) none_left))
