-- ===== src/Shell/Pipeline.antt =====
-- What the processes of a pipeline of lab5/GeislerWojciech/cw05/zad1/main.c read and write.
use agh_operating_systems.Base.{
  ℕ, zero, suc, ◌+◌, ◌-◌, ◌≤◌, ◌<◌, ◌≡◌, ◌≢◌, refl, ap, ◌∙◌, Bool, true, false, Option, none, some,
  List, [], ◌∷◌, ◌++◌, ◌==◌, arith, if◌then◌else◌, get_elem?, update,
}
use agh_operating_systems.Base.Int.{ℤ, pos, negsuc}
use agh_operating_systems.Shell.{Action, pipe, spawn, close, run_pipeline, execute_line}

-- What a descriptor can refer to: the standard input and output of the shell, and the ends of its pipes.
pub data End : Type 0 where
  std_in std_out : End
  read_of write_of : (pipe : ℕ) → End

-- The descriptors that are open.
abbrev pub Table : Type 0
Table = ℕ → Option End

abbrev pub initial : Table
initial d = if d == 0 then some std_in else if d == 1 then some std_out else none

abbrev pub close_any : Table → ℤ → Table
close_any t (pos d) = update t d none
close_any t (negsuc n) = t

-- A child with the descriptors of the shell, behind its two calls of `dup2` and of `close`.
abbrev pub child : Table → ℕ → ℕ → ℤ → ℤ → Table
child t input output in_1 out_0 =
    let t_1 = update t 0 (t input) in
    let t_2 = update t_1 1 (t_1 output) in close_any (close_any t_2 in_1) out_0

-- Standard input and output of the children at their `execvp`, from pipe number `j` on.
abbrev pub streams : ℕ → Table → List Action → List (Option End × Option End)
streams j t [] = []
streams j t (pipe r w ∷ actions) =
    streams (j + 1) (update (update t r (some (read_of j))) w (some (write_of j))) actions
streams j t (spawn input output in_1 out_0 ∷ actions) =
    (child t input output in_1 out_0 0, child t input output in_1 out_0 1) ∷ streams j t actions
streams j t (close d ∷ actions) = streams j (update t d none) actions

-- What is open in the shell at the end.
abbrev pub remaining : ℕ → Table → List Action → Table
remaining j t [] = t
remaining j t (pipe r w ∷ actions) =
    remaining (j + 1) (update (update t r (some (read_of j))) w (some (write_of j))) actions
remaining j t (spawn input output in_1 out_0 ∷ actions) = remaining j t actions
remaining j t (close d ∷ actions) = remaining j (update t d none) actions

-- The descriptors of a new pipe are not in use: they are two, neither standard input nor output, nor the
-- read end that is still open.
pub record Unused (fresh : ℕ → ℕ × ℕ) : Type 0 where
  pub two : (i : ℕ) → (fresh i).0 ≢ (fresh i).1
  pub not_standard : (i : ℕ) → (1 < (fresh i).0) × (1 < (fresh i).1)
  pub not_open : (i : ℕ) → ((fresh (i + 1)).0 ≢ (fresh i).0) × ((fresh (i + 1)).1 ≢ (fresh i).0)

-- `if(d != std) close(d)`
closing : ℕ → ℕ → Table → Table
closing std d t = if d == std then t else update t d none

module _ (j std d : ℕ) (t : Table) (actions : List Action) where
  streams-closing :
      streams j t ((if d == std then [] else close d ∷ []) ++ actions)
      ≡ streams j (closing std d t) actions
  unfolding closing
  streams-closing = by_test (d == std)
    where
      by_test :
          (b : Bool)
          → streams j t ((if b then [] else close d ∷ []) ++ actions)
            ≡ streams j (if b then t else update t d none) actions
      by_test true = refl
      by_test false = refl

  remaining-closing :
      remaining j t ((if d == std then [] else close d ∷ []) ++ actions)
      ≡ remaining j (closing std d t) actions
  unfolding closing
  remaining-closing = by_test (d == std)
    where
      by_test :
          (b : Bool)
          → remaining j t ((if b then [] else close d ∷ []) ++ actions)
            ≡ remaining j (if b then t else update t d none) actions
      by_test true = refl
      by_test false = refl

closing-at :
    (std d : ℕ) (t : Table) (x : ℕ)
    → closing std d t x ≡ (if d == std then t x else if d == x then none else t x)
unfolding closing
closing-at std d t x = ground arith

module _ (fresh : ℕ → ℕ × ℕ) (unused : Unused fresh) where
  -- Before command `i`: its input is open, and else only what was open at first.
  record Ready (i input : ℕ) (in_1 : ℤ) (e : End) (t : Table) : Type 0 where
    holds : (d : ℕ) → t d ≡ (if d == input then some e else initial d)
    not_output : input ≢ 1
    apart : ((fresh i).0 ≢ input) × ((fresh i).1 ≢ input)
    not_standard : (in_1 ≢ pos 0) × (in_1 ≢ pos 1)
    first : input ≡ 0 → e ≡ std_in

  -- The table behind the round for command `i`.
  abbrev behind : ℕ → ℕ → Table → Table
  behind i input t = closing 1 (fresh i).1 (
      closing 0 input
        (update (update t (fresh i).0 (some (read_of i))) (fresh i).1 (some (write_of i))))

  behind-Ready :
      (i input : ℕ) (in_1 : ℤ) (e : End) (t : Table)
      → Ready i input in_1 e t
      → Ready (i + 1) (fresh i).0 (pos (fresh i).1) (read_of i) (behind i input t)
  behind-Ready i input in_1 e t h = record {
    holds = λ d. ground (
      arith,
      closing-at 1 (fresh i).1
          (closing 0 input
            (update (update t (fresh i).0 (some (read_of i))) (fresh i).1 (some (write_of i))))
          d,
      closing-at 0 input
          (update (update t (fresh i).0 (some (read_of i))) (fresh i).1 (some (write_of i))) d,
      h.holds d,
      unused.two i,
      unused.not_standard i,
    );
    not_output = omega (arith, unused.not_standard i);
    apart = unused.not_open i;
    not_standard =
        ((λ q. ground (arith, unused.not_standard i)), λ q. ground (arith, unused.not_standard i));
    first = λ q. ground (arith, unused.not_standard i);
  }

  streams-run :
      (n i input k : ℕ) (in_1 : ℤ) (e : End) (t : Table)
      → Ready i input in_1 e t
      → k ≤ n
      → get_elem? (streams i t (run_pipeline fresh n i input in_1)) k
        ≡ some (
          (if k == 0 then some e else some (read_of (i + k - 1))),
          (if k == n then some std_out else some (write_of (i + k))),
        )
  unfolding run_pipeline
  streams-run zero i input zero in_1 e t h l = ground (arith, h.holds input, h.holds 0, h.holds 1)
  streams-run zero i input (suc k) in_1 e t h l = absurd (omega arith)
  streams-run (suc n) i input zero in_1 e t h l =
      ground (arith, h.holds input, h.holds 0, h.holds 1, unused.not_standard i, unused.two i)
  streams-run (suc n) i input (suc k) in_1 e t h l =
      ap (λ l. get_elem? l k)
        (streams-closing (i + 1) 0 input _ _ ∙ streams-closing (i + 1) 1 (fresh i).1 _ _)
      ∙ streams-run n (i + 1) (fresh i).0 k (pos (fresh i).1) (read_of i) (behind i input t)
          (behind-Ready i input in_1 e t h) (omega arith)
      ∙ ground arith

  remaining-run :
      (n i input : ℕ) (in_1 : ℤ) (e : End) (t : Table) (d : ℕ)
      → Ready i input in_1 e t
      → remaining i t (run_pipeline fresh n i input in_1) d ≡ initial d
  unfolding run_pipeline
  remaining-run zero i input in_1 e t d h = ground (arith, h.holds d)
  remaining-run (suc n) i input in_1 e t d h =
      ap (λ t. t d)
        (remaining-closing (i + 1) 0 input _ _ ∙ remaining-closing (i + 1) 1 (fresh i).1 _ _)
      ∙ remaining-run n (i + 1) (fresh i).0 (pos (fresh i).1) (read_of i) (behind i input t) d
          (behind-Ready i input in_1 e t h)

  start-Ready : Ready 0 0 (negsuc 0) std_in initial
  start-Ready = record {
    holds = λ d. ground arith;
    not_output = omega arith;
    apart = (omega (arith, unused.not_standard 0), omega (arith, unused.not_standard 0));
    not_standard = ((λ q. ground arith), λ q. ground arith);
    first = λ q. refl;
  }

  -- Of the `n + 1` commands of a line, the first one reads the shell's standard input when it starts, the
  -- last one writes its standard output, and any other command reads the pipe that the command before it
  -- writes. At the end just what was open at first is open in the shell. A descriptor that `pipe` gives is
  -- not in use at the time; it may have been in use before.
  pub pipeline_connected :
      (n : ℕ)
      → ((k : ℕ)
          → k ≤ n
          → get_elem? (streams 0 initial (execute_line fresh (suc n))) k
            ≡ some (
              (if k == 0 then some std_in else some (read_of (k - 1))),
              (if k == n then some std_out else some (write_of k)),
            ))
        × ((d : ℕ) → remaining 0 initial (execute_line fresh (suc n)) d ≡ initial d)
  unfolding execute_line
  pipeline_connected n = (
    λ k l. streams-run n 0 0 k (negsuc 0) std_in initial start-Ready l ∙ ground arith,
    λ d. remaining-run n 0 0 (negsuc 0) std_in initial d start-Ready,
  )
