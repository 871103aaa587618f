-- ===== src/Shell/Commands.antt =====
-- `split_commands` of lab5/GeislerWojciech/cw05/zad1/main.c against the splitting of a list at pipes.
use mathlib.Core.Path.{ap₂}
use mathlib.Core.List.{append_assoc}
use agh_operating_systems.Base.{
  ℕ, ◌+◌, ◌≡◌, refl, ap, ◌∙◌, sym, Bool, true, false, Option, none, some, List, [], ◌∷◌, ◌++◌,
  length, length-append, length-map, map, arith, ◌<◌, if◌then◌else◌, drop,
}
use agh_operating_systems.Base.Text.{CString}
use agh_operating_systems.Shell.{is_pipe, split_from, split_commands, args_from, args_at}

-- The words up to the first pipe.
abbrev pub before_pipe : List CString → List CString
before_pipe [] = []
before_pipe (tok ∷ toks) = if is_pipe tok then [] else tok ∷ before_pipe toks

-- The commands of a line, each as its words: one starts at the first word and behind every pipe that
-- is not the last word.
abbrev pub commands_from : Bool → List CString → List (List CString)
commands_from starts [] = []
commands_from starts (tok ∷ toks) =
    if starts
    then before_pipe (tok ∷ toks) ∷ commands_from (is_pipe tok) toks
    else commands_from (is_pipe tok) toks

args-before_pipe :
    (i : ℕ) (b : Bool) (toks : List CString) → args_from (split_from i b toks).0 ≡ before_pipe toks
unfolding args_from split_from
args-before_pipe i b [] = refl
args-before_pipe i b (tok ∷ toks) = ground (arith, args-before_pipe (i + 1) (is_pipe tok) toks)

drop-append {ℓ} : {A : Type ℓ} (xs ys : List A) → drop (length xs) (xs ++ ys) ≡ ys
drop-append [] ys = refl
drop-append (x ∷ xs) ys = drop-append xs ys

abbrev marked : CString → Option CString
marked tok = if is_pipe tok then none else some tok

regrouped :
    (pre : List (Option CString)) (i : ℕ) (b : Bool) (tok : CString) (toks : List CString)
    → let (rest, starts) = split_from (i + 1) (is_pipe tok) toks in
      map (args_at ((pre ++ marked tok ∷ []) ++ rest)) starts ≡ commands_from (is_pipe tok) toks
      → map
          (args_at (pre ++ (split_from i b (tok ∷ toks)).0))
          (split_from (i + 1) (is_pipe tok) toks).1
        ≡ commands_from (is_pipe tok) toks
unfolding split_from
regrouped pre i b tok toks h =
    let (rest, starts) = split_from (i + 1) (is_pipe tok) toks in
    ap (λ t. map (args_at t) starts) (sym (append_assoc pre (marked tok ∷ []) rest)) ∙ h

-- The starts that are found lie at or behind the index of the scan, so they are read from the array
-- with any tokens put in front.
commands-split_from :
    (pre : List (Option CString)) (i : ℕ) (b : Bool) (toks : List CString)
    → i ≡ length pre
    → map (args_at (pre ++ (split_from i b toks).0)) (split_from i b toks).1 ≡ commands_from b toks
unfolding split_from args_at
commands-split_from pre i b [] e = refl
commands-split_from pre i true (tok ∷ toks) e =
    ap₂ ◌∷◌
      (ap (λ t. args_from (drop t (pre ++ (split_from i true (tok ∷ toks)).0))) e
        ∙ ap args_from (drop-append pre (split_from i true (tok ∷ toks)).0)
        ∙ args-before_pipe i true (tok ∷ toks))
      (regrouped pre i true tok toks (
        commands-split_from (pre ++ marked tok ∷ []) (i + 1) (is_pipe tok) toks
          (omega (arith, length-append pre (marked tok ∷ [])))))
commands-split_from pre i false (tok ∷ toks) e = regrouped pre i false tok toks (
    commands-split_from (pre ++ marked tok ∷ []) (i + 1) (is_pipe tok) toks
      (omega (arith, length-append pre (marked tok ∷ []))))

split_from-commands :
    (toks : List CString)
    → map (args_at (split_from 0 true toks).0) (split_from 0 true toks).1 ≡ commands_from true toks
split_from-commands toks = commands-split_from [] 0 true toks refl

count_starts :
    (toks : List CString) → length (split_from 0 true toks).1 ≡ length (commands_from true toks)
count_starts toks =
    sym (length-map (split_from 0 true toks).1 (args_at (split_from 0 true toks).0))
    ∙ ap length (split_from-commands toks)

-- With more the function writes behind its array.
pub split_commands-overflow :
    (toks : List CString) → 256 < length (commands_from true toks) → split_commands toks ≡ none
unfolding split_commands
split_commands-overflow toks h = ground (arith, count_starts toks)
