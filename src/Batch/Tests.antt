-- ===== src/Batch/Tests.antt =====
-- Lines of a batch file of lab3/GeislerWojciech/cw03/zad2.
use agh_operating_systems.Base.{ℕ, ◌≡◌, ◌≢◌, refl, none, some, [], ◌∷◌, arith}
use agh_operating_systems.Base.Int.{pos}
use agh_operating_systems.Batch.{tokenize_line, execute_batch}
use agh_operating_systems.Batch.Layout.{IsWord, tokenize_line-lay}

two_chars : (c d : ℕ) → c ≢ 0 → c ≢ 32 → d ≢ 0 → d ≢ 32 → IsWord (c ∷ d ∷ [])
two_chars c d e f g h = (omega arith, (e, f, (g, h, tt)))

-- " ls  -l "
tokenize_line-lay_example :
    tokenize_line (32 ∷ 108 ∷ 115 ∷ 32 ∷ 32 ∷ 45 ∷ 108 ∷ 32 ∷ [])
    ≡ some (2, (108 ∷ 115 ∷ []) ∷ (45 ∷ 108 ∷ []) ∷ [])
tokenize_line-lay_example =
    tokenize_line-lay 1 (108 ∷ 115 ∷ []) ((1, 45 ∷ 108 ∷ []) ∷ []) 1
      (two_chars 108 115 (omega arith) (omega arith) (omega arith) (omega arith))
      (two_chars 45 108 (omega arith) (omega arith) (omega arith) (omega arith), tt)

-- The second of three commands fails; an empty line is a read behind its end.
stops :
    execute_batch (λ i args. pos i) 0 ((97 ∷ 10 ∷ []) ∷ (98 ∷ 10 ∷ []) ∷ (99 ∷ 10 ∷ []) ∷ [])
    ≡ some (((97 ∷ []) ∷ []) ∷ ((98 ∷ []) ∷ []) ∷ [])
stops = refl

empty_line : execute_batch (λ i args. pos 0) 0 ((10 ∷ []) ∷ []) ≡ none
empty_line = refl
