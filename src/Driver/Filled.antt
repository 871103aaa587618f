-- ===== src/Driver/Filled.antt =====
-- What `create_filled` of lab1/GeislerWojciech/cw01/zad2/main.c makes, and what a search in it finds.
use mathlib.Core.Path.{subst}
use mathlib.Core.List.{append_assoc}
use agh_operating_systems.Base.{
  ℕ, zero, suc, ◌-◌, ◌*◌, ◌≤◌, ◌<◌, ◌≡◌, ◌≢◌, refl, ap, sym, ◌∙◌, false, Option, none, some, List,
  [], ◌∷◌, ◌++◌, length, set, get_or, replicate, take, arith, length-replicate,
}
use agh_operating_systems.Base.Int.{ℤ, pos}
use agh_operating_systems.Blocks.{
  Block, BlockArray, Statics, create_array, get_block, create_block, fill_random, sum_block,
  all_blocks,
}
use agh_operating_systems.Blocks.Contents.{fill_random_lem}
use agh_operating_systems.Blocks.Nearest.{Summed, done, next, difference, find_nearest_lem}
use agh_operating_systems.Driver.{fill_block, fill_blocks, create_filled, time_search}

module _ {A : Type 0} where
  set-append :
      (pre : List A) (x y : A) (rest : List A)
      → set (pre ++ x ∷ rest) (length pre) y ≡ pre ++ y ∷ rest
  set-append [] x y rest = refl
  set-append (p ∷ pre) x y rest = ap (λ l. p ∷ l) (set-append pre x y rest)

  get_or-append :
      (pre : List A) (x d : A) (rest : List A) → get_or (pre ++ x ∷ rest) (length pre) d ≡ x
  get_or-append [] x d rest = refl
  get_or-append (p ∷ pre) x d rest = get_or-append pre x d rest

-- An array that is not static.
abbrev dynamic : List (Option Block) → ℕ → ℕ → BlockArray
dynamic content blocks block_size = record {
  content = content;
  blocks = blocks;
  block_size = block_size;
  use_static = false;
}

module _ (rand : ℕ → ℕ → ℕ) (blocks size : ℕ) (statics : Statics) where
  -- What the loop writes to the blocks from `i` on.
  abbrev random_block : ℕ → Block
  random_block i = fill_random (replicate size 0) size (rand i)

  abbrev pub random_blocks : ℕ → ℕ → List (Option Block)
  random_blocks zero i = []
  random_blocks (suc n) i = some (random_block i) ∷ random_blocks n (suc i)

  fill_block-dynamic :
      (pre rest : List (Option Block))
      → fill_block rand (length pre) (dynamic (pre ++ none ∷ rest) blocks size, statics)
        ≡ some (dynamic (pre ++ some (random_block (length pre)) ∷ rest) blocks size, statics)
  unfolding create_block get_block
  fill_block-dynamic pre rest =
      rw (set-append pre none (some (replicate size 0)) rest, fill_block)
        (rw (get_or-append pre (some (replicate size 0)) none rest) (
          ap (λ l. some (dynamic l blocks size, statics))
            (ap (λ l. set l (length pre) (some (random_block (length pre))))
                (set-append pre none (some (replicate size 0)) rest)
              ∙ set-append pre (some (replicate size 0)) (some (random_block (length pre))) rest)))

  length-snoc :
      (pre : List (Option Block)) (x : Option Block) → length (pre ++ x ∷ []) ≡ suc (length pre)
  length-snoc [] x = refl
  length-snoc (p ∷ pre) x = ap suc (length-snoc pre x)

  snoc-append :
      (pre : List (Option Block)) (x : Option Block) (rest : List (Option Block))
      → (pre ++ x ∷ []) ++ rest ≡ pre ++ x ∷ rest
  snoc-append pre x rest = append_assoc pre (x ∷ []) rest

  fill_blocks-dynamic :
      (n : ℕ) (pre : List (Option Block))
      → fill_blocks rand n (length pre) (dynamic (pre ++ replicate n none) blocks size, statics)
        ≡ some (dynamic (pre ++ random_blocks n (length pre)) blocks size, statics)
  fill_blocks-dynamic zero pre = refl
  fill_blocks-dynamic (suc n) pre =
      let x = some (random_block (length pre)) in
      rw (fill_block-dynamic pre (replicate n none), fill_blocks)
        (rw (sym (snoc-append pre x (replicate n none))) (
          rw (sym (snoc-append pre x (random_blocks n (suc (length pre))))) (
            subst
              (λ k.
                fill_blocks rand n k
                  (dynamic ((pre ++ x ∷ []) ++ replicate n none) blocks size, statics)
                ≡ some (dynamic ((pre ++ x ∷ []) ++ random_blocks n k) blocks size, statics))
              (length-snoc pre x) (fill_blocks-dynamic n (pre ++ x ∷ [])))))

  -- Every block has a sum, that of the letters that it was filled with.
  random_sum :
      (i : ℕ)
      → 0 < size
      → size ≤ 17600000
      → (s : ℕ) × (sum_block (random_block i) ≡ some (pos s))
        × (65 * (size - 1) ≤ s)
        × (s ≤ 122 * (size - 1))
  random_sum i h small =
      (fill_random_lem (replicate size 0) size (rand i) h
        (omega (arith, length-replicate {A = ℕ} size 0)) small).1

  bounded :
      (n i : ℕ)
      → 0 < size
      → size ≤ 17600000
      → (sums : List ℤ) × Summed (random_blocks n i) sums
        × (length sums ≡ n)
        × ((j : ℕ)
            → j < n
            → (s : ℕ) × (get_or sums j (pos 0) ≡ pos s)
              × (65 * (size - 1) ≤ s)
              × (s ≤ 122 * (size - 1)))
  bounded zero i h small = ([], done, refl, λ j lt. absurd (omega arith))
  bounded (suc n) i h small =
      let (s, e, low, high) = random_sum i h small in
      let (sums, all, len, each) = bounded n (suc i) h small in
      (pos s ∷ sums, next e all, omega (arith, len), within sums each s low high)
    where
      within :
          {n : ℕ} (sums : List ℤ)
          → ((j : ℕ)
              → j < n
              → (s : ℕ) × (get_or sums j (pos 0) ≡ pos s)
                × (65 * (size - 1) ≤ s)
                × (s ≤ 122 * (size - 1)))
          → (s : ℕ) → 65 * (size - 1) ≤ s
          → s ≤ 122 * (size - 1)
          → (j : ℕ) → j < suc n
          → (t : ℕ) × (get_or (pos s ∷ sums) j (pos 0) ≡ pos t)
            × (65 * (size - 1) ≤ t)
            × (t ≤ 122 * (size - 1))
      within sums each s low high zero lt = (s, refl, low, high)
      within sums each s low high (suc j) lt = each j (omega arith)

  take-random_blocks : (n i : ℕ) → take n (random_blocks n i) ≡ random_blocks n i
  take-random_blocks zero i = refl
  take-random_blocks (suc n) i = ap (λ l. some (random_block i) ∷ l) (take-random_blocks n (suc i))

another : (target blocks : ℕ) → 2 ≤ blocks → (j : ℕ) × (j < blocks) × (j ≢ target)
another zero blocks two = (1, omega arith, omega arith)
another (suc target) blocks two = (0, omega arith, omega arith)

-- `search_element` on a dynamic table of at least two blocks, none of them empty and none of more than
-- 17.6 million bytes, always ends with a block of the table other than the target: `create_filled` leaves
-- no block uncreated or without an end, and no block that is not the target is nearer to it.
pub time_search-create_filled :
    (rand : ℕ → ℕ → ℕ) (blocks size : ℕ) (statics : Statics) (target : ℕ)
    → 2 ≤ blocks
    → 0 < size
    → size ≤ 17600000
    → target < blocks
    → (arr : BlockArray) × (n : ℕ) × (sums : List ℤ) × (create_filled rand blocks size false statics
        ≡ some (arr, statics))
      × (time_search (arr, statics) target ≡ some n)
      × (n < blocks)
      × (n ≢ target)
      × Summed arr.content sums
      × ((k : ℕ)
          → k < blocks
          → k ≢ target
          → difference sums (get_or sums target (pos 0)) n
            ≤ difference sums (get_or sums target (pos 0)) k)
unfolding create_array all_blocks
time_search-create_filled rand blocks size statics target two h small lt =
    let (sums, all, len, each) = bounded rand blocks size statics blocks 0 h small in
    let (j, lj, ne) = another target blocks two in
    let (s, es, low_s, high_s) = each target lt in
    let (t, et, low_t, high_t) = each j lj in
    let (n, found, ln, other, least, first) =
      find_nearest_lem (dynamic (random_blocks rand blocks size statics blocks 0) blocks size)
        statics target sums
        (subst (λ l. Summed l sums) (sym (take-random_blocks rand blocks size statics blocks 0))
          all)
        (omega (arith, len)) j (omega (arith, len)) ne (rw es (rw et (omega arith)))
        (λ k lk nk.
          let (u, eu, low_u, high_u) = each k (omega (arith, len)) in
          rw es (rw eu (omega arith))) in
    (
      dynamic (random_blocks rand blocks size statics blocks 0) blocks size,
      n,
      sums,
      fill_blocks-dynamic rand blocks size statics blocks [],
      found,
      omega (arith, len),
      other,
      all,
      λ k lk nk. least k (omega (arith, len)) nk,
    )
