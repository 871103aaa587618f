-- ===== src/Files/Listing.antt =====
-- What all processes of `display_dir` of lab3/GeislerWojciech/cw03/zad1/main.c print together, against
-- one walk through the tree.
use mathlib.Core.List.{Perm, append_assoc, perm_middle}
use mathlib.Core.List.Perm.{rfl, cons, trans, symm, append}
use mathlib.Core.Path.{subst}
use agh_operating_systems.Base.{
  ℕ, ◌≢◌, ◌⊎◌, inl, inr, arith, ◌≡◌, refl, sym, ◌∙◌, ap, Bool, true, false, some, List, [], ◌∷◌,
  ◌++◌, if◌then◌else◌,
}
use agh_operating_systems.Base.Text.{CString, str_eq_iff}
use agh_operating_systems.Files.{
  Comparator, Entries, file, dir, back, special, goes_down, dot, dot_dot, none_left, more,
  join_paths, is_time_allowed, print_files, descend, display_dir,
}

-- The paths of the regular files in a directory and below it that the date selects.
pub selected : Comparator → ℕ → CString → Entries → List CString
unfolding join_paths is_time_allowed
selected cmp target path none_left = []
selected cmp target path (more (file name mtime) entries) =
    let rest = selected cmp target path entries in
    if is_time_allowed cmp target mtime then join_paths path name ∷ rest else rest
selected cmp target path (more (dir name inner) entries) =
    selected cmp target (join_paths path name) inner ++ selected cmp target path entries
selected cmp target path (more (back name) entries) = selected cmp target path entries
selected cmp target path (more (special name) entries) = selected cmp target path entries

-- A name that leads back, and one that does not.
abbrev pub LeadsBack : CString → Type 0
LeadsBack name = (name ≡ dot) ⊎ (name ≡ dot_dot)

abbrev pub IsOwn : CString → Type 0
IsOwn name = (name ≢ dot) × (name ≢ dot_dot)

-- Every directory has its entries "." and ".." as such, and no other entry has these names.
abbrev pub IsTree : Entries → Type 0
IsTree none_left = Unit
IsTree (more (file name mtime) entries) = IsTree entries
IsTree (more (dir name inner) entries) = IsOwn name × IsTree inner × IsTree entries
IsTree (more (back name) entries) = LeadsBack name × IsTree entries
IsTree (more (special name) entries) = IsTree entries

-- What the processes below a directory print.
abbrev listed : Comparator → ℕ → CString → Entries → List (List CString)
listed cmp target path none_left = []
listed cmp target path (more (dir name inner) entries) =
    let path' = join_paths path name in
    (print_files cmp target path' inner ∷ listed cmp target path' inner)
    ++ listed cmp target path entries
listed cmp target path (more (back name) entries) = listed cmp target path entries
listed cmp target path (more (file name mtime) entries) = listed cmp target path entries
listed cmp target path (more (special name) entries) = listed cmp target path entries

pub goes_down-IsOwn : (name : CString) → IsOwn name → goes_down name ≡ true
goes_down-IsOwn name (other, up) =
    ground (arith, other, up, str_eq_iff name dot, str_eq_iff name dot_dot)

pub goes_down-LeadsBack : (name : CString) → LeadsBack name → goes_down name ≡ false
goes_down-LeadsBack name (inl e) = ground (arith, str_eq_iff name dot)
goes_down-LeadsBack name (inr e) = ground (arith, str_eq_iff name dot_dot)

descend-listed :
    (cmp : Comparator) (target : ℕ) (path : CString) (entries : Entries)
    → IsTree entries
    → descend cmp target path entries ≡ some (listed cmp target path entries)
unfolding descend
descend-listed cmp target path none_left h = refl
descend-listed cmp target path (more (file name mtime) entries) h =
    descend-listed cmp target path entries h
descend-listed cmp target path (more (dir name inner) entries) (down, h, k) =
    rw
      (
        goes_down-IsOwn name down,
        descend-listed cmp target (join_paths path name) inner h,
        descend-listed cmp target path entries k,
      )
      refl
descend-listed cmp target path (more (back name) entries) (up, h) =
    rw (goes_down-LeadsBack name up, descend-listed cmp target path entries h) refl
descend-listed cmp target path (more (special name) entries) h =
    descend-listed cmp target path entries h

abbrev pub flatten : List (List CString) → List CString
flatten [] = []
flatten (xs ∷ xss) = xs ++ flatten xss

flatten-append : (xss yss : List (List CString)) → flatten (xss ++ yss) ≡ flatten xss ++ flatten yss
flatten-append [] yss = refl
flatten-append (xs ∷ xss) yss =
    ap (λ t. xs ++ t) (flatten-append xss yss) ∙ sym (append_assoc xs (flatten xss) (flatten yss))

pub append_swap : (xs ys zs : List CString) → Perm (xs ++ (ys ++ zs)) (ys ++ (xs ++ zs))
append_swap [] ys zs = rfl
append_swap (x ∷ xs) ys zs =
    trans (cons x (append_swap xs ys zs)) (symm (perm_middle ys (xs ++ zs)))

cons_if :
    (b : Bool) (p : CString) (xs ys zs : List CString)
    → Perm (xs ++ ys) zs
    → Perm ((if b then p ∷ xs else xs) ++ ys) (if b then p ∷ zs else zs)
cons_if true p xs ys zs h = cons p h
cons_if false p xs ys zs h = h

display_dir-flatten :
    (cmp : Comparator) (target : ℕ) (path : CString) (entries : Entries)
    → Perm
        (print_files cmp target path entries ++ flatten (listed cmp target path entries))
        (selected cmp target path entries)
unfolding print_files selected
display_dir-flatten cmp target path none_left = rfl
display_dir-flatten cmp target path (more (file name mtime) entries) =
    cons_if (is_time_allowed cmp target mtime) (join_paths path name)
      (print_files cmp target path entries) (flatten (listed cmp target path entries))
      (selected cmp target path entries) (display_dir-flatten cmp target path entries)
display_dir-flatten cmp target path (more (dir name inner) entries) =
    let path' = join_paths path name in
    let here = print_files cmp target path entries in
    let below = flatten (listed cmp target path' inner) in
    let beside = flatten (listed cmp target path entries) in
    let printed = print_files cmp target path' inner ++ below in
    subst
      (λ t. Perm (here ++ t) (selected cmp target path' inner ++ selected cmp target path entries))
      (append_assoc (print_files cmp target path' inner) below beside
        ∙ ap (λ t. print_files cmp target path' inner ++ t)
            (sym (flatten-append (listed cmp target path' inner) (listed cmp target path entries))))
      (trans (append_swap here printed beside) (
        append (display_dir-flatten cmp target path' inner)
          (display_dir-flatten cmp target path entries)))
display_dir-flatten cmp target path (more (back name) entries) =
    display_dir-flatten cmp target path entries
display_dir-flatten cmp target path (more (special name) entries) =
    display_dir-flatten cmp target path entries

-- However deep the tree is, no process descends into the directory that it is in or the one above, and the
-- processes together print the path of every regular file that the date selects once, and nothing else. A
-- directory is a tree in which just "." and ".." lead back.
pub display_dir_complete :
    (cmp : Comparator) (target : ℕ) (path : CString) (entries : Entries)
    → IsTree entries
    → (printed : List (List CString)) × (display_dir cmp target path entries ≡ some printed)
      × Perm (flatten printed) (selected cmp target path entries)
unfolding display_dir
display_dir_complete cmp target path entries h = (
  print_files cmp target path entries ∷ listed cmp target path entries,
  rw (descend-listed cmp target path entries h) refl,
  display_dir-flatten cmp target path entries,
)
