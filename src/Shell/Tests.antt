-- ===== src/Shell/Tests.antt =====
-- A line of three commands of lab5/GeislerWojciech/cw05/zad1/main.c.
use agh_operating_systems.Base.{
  ℕ, ◌+◌, ◌-◌, ◌*◌, ◌≤◌, ◌≡◌, refl, none, some, [], ◌∷◌, arith, get_elem?, if◌then◌else◌, ◌==◌,
}
use agh_operating_systems.Base.Int.{pos, negsuc}
use agh_operating_systems.Shell.{split_commands, args_at, execute_line, pipe, spawn, close}
use agh_operating_systems.Shell.Pipeline.{
  std_in, std_out, read_of, write_of, initial, streams, remaining, Unused, pipeline_connected,
}

-- The `i`-th pipe has the descriptors `2 * i + 3` and `2 * i + 4`.
abbrev fresh : ℕ → ℕ × ℕ
fresh i = (2 * i + 3, 2 * i + 4)

-- "a | b c"
commands_test :
    split_commands ((97 ∷ []) ∷ (124 ∷ []) ∷ (98 ∷ []) ∷ (99 ∷ []) ∷ [])
    ≡ some (some (97 ∷ []) ∷ none ∷ some (98 ∷ []) ∷ some (99 ∷ []) ∷ [], 0 ∷ 2 ∷ [])
unfolding split_commands args_at
commands_test = refl

pipeline_test :
    execute_line fresh 2
    ≡ pipe 3 4
      ∷ spawn 0 4 (negsuc 0) (pos 3)
      ∷ close 4
      ∷ spawn 3 1 (pos 4) (negsuc 0)
      ∷ close 3
      ∷ []
unfolding execute_line
pipeline_test = refl

fresh-Unused : Unused fresh
fresh-Unused = record {
  two = λ i. omega arith;
  not_standard = λ i. (omega arith, omega arith);
  not_open = λ i. (omega arith, omega arith);
}

pipeline_connected_example :
    ((k : ℕ)
      → k ≤ 2
      → get_elem? (streams 0 initial (execute_line fresh 3)) k
        ≡ some (
          (if k == 0 then some std_in else some (read_of (k - 1))),
          (if k == 2 then some std_out else some (write_of k)),
        ))
    × ((d : ℕ) → remaining 0 initial (execute_line fresh 3) d ≡ initial d)
pipeline_connected_example = pipeline_connected fresh fresh-Unused 2
