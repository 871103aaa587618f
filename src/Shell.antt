-- ===== src/Shell.antt =====
-- The batch shell of lab5/GeislerWojciech/cw05/zad1/main.c: splitting a line into commands, and the
-- descriptors that its loop hands to the processes of a pipeline.
pub mod Commands
pub mod Pipeline
mod Tests
use agh_operating_systems.Base.{
  ℕ, zero, suc, ◌+◌, ◌-◌, Bool, true, false, Option, none, some, List, [], ◌∷◌, ◌++◌, length, ltb,
  ◌==◌, if◌then◌else◌, get_elem?, drop,
}
use agh_operating_systems.Base.Int.{ℤ, pos, negsuc}
use agh_operating_systems.Base.Text.{CString}

-- A token is `|` if it starts so.
abbrev pub is_pipe : CString → Bool
is_pipe [] = false
is_pipe (c ∷ s) = c == 124

abbrev pub is_null : Option CString → Bool
is_null none = true
is_null (some s) = false

-- `split_commands`, from index `i` on: the tokens with pipes made `NULL`, and the indices at which
-- commands start. `previous` tells whether `toks[i - 1]` is `NULL`, or `i` is 0.
pub split_from : ℕ → Bool → List CString → List (Option CString) × List ℕ
split_from i previous [] = ([], [])
split_from i previous (tok ∷ toks) =
    let (rest, starts) = split_from (i + 1) (is_pipe tok) toks in
    ((if is_pipe tok then none else some tok) ∷ rest, if previous then i ∷ starts else starts)

-- The array with its pipes made `NULL`, and `commands`. A 257th command would be written behind the
-- array `commands`: there is no result.
pub split_commands : List CString → Option (List (Option CString) × List ℕ)
unfolding split_from
split_commands toks =
    let (array, starts) = split_from 0 true toks in
    if ltb 256 (length starts) then none else some (array, starts)

-- The arguments that `execvp` reads at a pointer: up to the first `NULL`.
pub args_from : List (Option CString) → List CString
args_from [] = []
args_from (none ∷ toks) = []
args_from (some tok ∷ toks) = tok ∷ args_from toks

pub args_at : List (Option CString) → ℕ → List CString
unfolding args_from
args_at toks i = args_from (drop i toks)

-- What happens to descriptors in the loop of `execute_batch`. A `spawn` gives what the child makes its
-- standard input and output, and `in[1]` and `out[0]`, which it then closes.
pub data Action : Type 0 where
  pipe : (read_end write_end : ℕ) → Action
  spawn : (input output : ℕ) → (in_1 out_0 : ℤ) → Action
  close : ℕ → Action

-- The loop, with `n` commands left after the present one. `fresh i` are the two descriptors that the
-- `i`-th call of `pipe` gives; `input` is `in[0]`, and `in_1` is `in[1]`.
pub run_pipeline : (ℕ → ℕ × ℕ) → ℕ → ℕ → ℕ → ℤ → List Action
run_pipeline fresh zero i input in_1 =
    spawn input 1 in_1 (negsuc 0) ∷ (if input == 0 then [] else close input ∷ [])
run_pipeline fresh (suc n) i input in_1 =
    let (read_end, write_end) = fresh i in
    pipe read_end write_end
    ∷ spawn input write_end in_1 (pos read_end)
    ∷ ((if input == 0 then [] else close input ∷ [])
        ++ ((if write_end == 1 then [] else close write_end ∷ [])
            ++ run_pipeline fresh n (i + 1) read_end (pos write_end)))

-- A line with `count` commands.
pub execute_line : (ℕ → ℕ × ℕ) → ℕ → List Action
unfolding run_pipeline
execute_line fresh zero = []
execute_line fresh (suc n) = run_pipeline fresh n 0 0 (negsuc 0)
