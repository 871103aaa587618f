-- ===== src/Batch.antt =====
-- The interpreter of batch files lab3/GeislerWojciech/cw03/zad2/main.c: `tokenize`, which cuts a line at its
-- spaces in place, and `execute_batch`. A token is a position in the line; its text ends at the next NUL.
-- The process that runs a command is a parameter.
pub mod Layout
mod Tests
use agh_operating_systems.Base.{
  ℕ, zero, suc, ◌+◌, Bool, true, false, ◌&&◌, Option, none, some, List, [], ◌∷◌, ◌++◌, map, drop,
  if◌then◌else◌, ◌==◌,
}
use agh_operating_systems.Base.Int.{ℤ, pos, eqb_ℤ}
use agh_operating_systems.Base.Text.{CString}

-- The loop that finds the first character that is no space.
abbrev pub skip_leading : CString → CString
skip_leading [] = []
skip_leading (c ∷ s) = let rest = skip_leading s in if c == 32 then rest else c ∷ s

-- What the first loop of `tokenize` leaves of the characters behind the first one.
abbrev pub cut : CString → CString
cut [] = []
cut (c ∷ s) = (if c == 32 then 0 else c) ∷ cut s

-- How often it increments `count`; `prev` is `string[i - 1]`, cut already.
abbrev pub count_from : ℕ → CString → ℕ
count_from prev [] = 0
count_from prev (c ∷ s) =
    let after_space = count_from 0 s in
    let after_char = count_from c s in
    if c == 32 then after_space else if prev == 0 then suc after_char else after_char

-- The second loop: the positions from `i` on that become tokens.
abbrev pub starts_from : ℕ → ℕ → CString → List ℕ
starts_from i prev [] = []
starts_from i prev (c ∷ s) =
    let rest = starts_from (suc i) c s in
    if c == 0 then rest else if prev == 0 then i ∷ rest else rest

-- The string at a position of the line.
abbrev pub until_nul : CString → CString
until_nul [] = []
until_nul (c ∷ s) = let rest = until_nul s in if c == 0 then [] else c ∷ rest

abbrev pub text_at : CString → ℕ → CString
text_at line i = until_nul (drop i line)

-- The number of entries that `tokenize` allocates, less the last one, and the tokens; `none` is the read
-- behind the end of a line without words.
abbrev pub cut_tokens : CString → Option (ℕ × List CString)
cut_tokens [] = none
cut_tokens (c ∷ s) =
    some (suc (count_from c s), map (text_at (c ∷ cut s)) (0 ∷ starts_from 1 c (cut s)))

abbrev pub tokenize_line : CString → Option (ℕ × List CString)
tokenize_line string = cut_tokens (skip_leading string)

-- The line without its last character.
abbrev pub chop : CString → CString
chop [] = []
chop (c ∷ []) = []
chop (c ∷ d ∷ s) = c ∷ chop (d ∷ s)

-- `run` gives the exit status of the commands, in the order in which they are run: the `i`-th for the one at
-- place `i`. The result are the commands that were run; `none` is undefined behaviour.
abbrev pub execute_batch : (ℕ → List CString → ℤ) → ℕ → List CString → Option (List (List CString))
execute_batch run i [] = some []
execute_batch run i (line ∷ lines) = elim (tokenize_line (chop line)) [
  | none ↦ none
  | some (count, args) ↦
      if eqb_ℤ (run i args) (pos 0)
      then elim (execute_batch run (suc i) lines) [ none ↦ none | some more ↦ some (args ∷ more) ]
      else some (args ∷ [])
]
