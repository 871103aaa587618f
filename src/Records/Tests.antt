-- ===== src/Records/Tests.antt =====
-- The theorems on lab2/GeislerWojciech/cw02/zad1/main.c at records of two bytes.
use agh_operating_systems.Base.{
  ℕ, suc, ◌+◌, ◌*◌, ◌≤◌, ◌<◌, ◌≡◌, refl, ◌⊎◌, true, false, some, none, List, [], ◌∷◌, ◌++◌, take,
  drop, arith,
}
use agh_operating_systems.Records.{Record, sort, copy, flags_to_char}
use agh_operating_systems.Records.Insertion.{Ascending, with_key}
use agh_operating_systems.Records.Sort.{sort_lem}
use agh_operating_systems.Records.Copy.{copy_lem}

abbrev records : List Record
records = (7 ∷ 0 ∷ []) ∷ (3 ∷ 1 ∷ []) ∷ (7 ∷ 2 ∷ []) ∷ (3 ∷ 3 ∷ []) ∷ (1 ∷ 4 ∷ []) ∷ []

-- Four of the five records are sorted.
sorted :
    sort records 4 2 true
    ≡ some ((3 ∷ 1 ∷ []) ∷ (3 ∷ 3 ∷ []) ∷ (7 ∷ 0 ∷ []) ∷ (7 ∷ 2 ∷ []) ∷ (1 ∷ 4 ∷ []) ∷ [])
unfolding sort
sorted = refl

missing : sort records 6 2 true ≡ none
unfolding sort
missing = refl

sort_example :
    (ys : List Record) × (sort records 4 2 true ≡ some (ys ++ drop 4 records))
    × Ascending ys
    × ((k : ℕ) → with_key k ys ≡ with_key k (take 4 records))
sort_example = sort_lem 2 4 records (omega arith) (omega arith)

abbrev bytes : List ℕ
bytes = 1 ∷ 2 ∷ 3 ∷ 4 ∷ 5 ∷ []

copied : (copy true 3 2 bytes ≡ bytes) × (copy false 3 2 bytes ≡ 1 ∷ 2 ∷ 3 ∷ 4 ∷ [])
unfolding copy
copied = (refl, refl)

copy_example :
    (copy true 3 2 bytes ≡ bytes)
    × ((m : ℕ) × (copy false 3 2 bytes ≡ take (m * 2) bytes)
        × (m ≤ 3)
        × (m * 2 ≤ 5)
        × ((m ≡ 3) ⊎ (5 < suc m * 2)))
copy_example = copy_lem 3 2 bytes

-- The three uses: O_RDONLY, O_WRONLY | O_CREAT | O_TRUNC and O_RDWR.
modes :
    (flags_to_char 0 ≡ 114 ∷ [])
    × (flags_to_char (1 + 64 + 512) ≡ 119 ∷ [])
    × (flags_to_char 2 ≡ 114 ∷ 43 ∷ [])
unfolding flags_to_char
modes = (refl, refl, refl)
