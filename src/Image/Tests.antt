-- ===== src/Image/Tests.antt =====
-- A 3 by 2 image of lab8/GeislerWojciech/cw08/zad1/main.c, with integers for floating-point numbers.
use agh_operating_systems.Base.{
  ℕ, zero, suc, ◌≤◌, ◌<◌, ◌≡◌, refl, List, [], ◌∷◌, arith, length, get_or,
}
use agh_operating_systems.Base.Int.{ℤ, pos, ◌+ℤ◌, ◌*ℤ◌}
use agh_operating_systems.Image.{
  Floats, Job, Interleaved, joined, finished, step, thread_pixels, part_begin, part_end, get_idx,
  at, write_all, blank, calc_pixel_value,
}
use agh_operating_systems.Image.Parts.{parts_cover}
use agh_operating_systems.Image.Bounds.{IsShaped, calc_pixel_value_in_bounds}
use agh_operating_systems.Image.Output.{process_image_complete, process_image_in_bounds}

abbrev integers : Floats
integers = record { Double = ℤ; nought = pos 0; add = ◌+ℤ◌; scale = ◌*ℤ◌; lround = λ x. x }

-- Three rows of two pixels, and a filter of one coefficient.
abbrev small : Job integers
small = record {
  filter_size = 1;
  image_h = 3;
  image_w = 2;
  filter = (pos 2 ∷ []) ∷ [];
  image_in = (pos 1 ∷ pos 2 ∷ []) ∷ (pos 3 ∷ pos 4 ∷ []) ∷ (pos 5 ∷ pos 6 ∷ []) ∷ [];
}

get_idx_tests : (get_idx 3 0 0 10 ≡ pos 0) × (get_idx 3 9 2 10 ≡ pos 9) × (get_idx 3 5 2 10 ≡ pos 5)
unfolding get_idx ◌+ℤ◌
get_idx_tests = (refl, refl, refl)

-- The second thread writes before the first one and in between.
abbrev run : List (ℕ × ℕ)
run = (2, 0) ∷ (0, 0) ∷ (0, 1) ∷ (1, 0) ∷ (2, 1) ∷ (1, 1) ∷ []

abbrev first_part : List (ℕ × ℕ)
first_part = (0, 0) ∷ (0, 1) ∷ (1, 0) ∷ (1, 1) ∷ []

run-Interleaved : Interleaved (thread_pixels 3 2 2 2 0) run
unfolding thread_pixels
run-Interleaved = step (first_part ∷ []) ((2, 1) ∷ []) [] (
    step [] ((0, 1) ∷ (1, 0) ∷ (1, 1) ∷ []) (((2, 1) ∷ []) ∷ []) (
      step [] ((1, 0) ∷ (1, 1) ∷ []) (((2, 1) ∷ []) ∷ []) (
        step [] ((1, 1) ∷ []) (((2, 1) ∷ []) ∷ [])
          (step (((1, 1) ∷ []) ∷ []) [] [] (step [] [] ([] ∷ []) (finished (finished joined)))))))

image-IsShaped : IsShaped small.image_in 3 2
image-IsShaped = record { rows = refl; columns = row }
  where
    row : (i : ℕ) → i < 3 → length (get_or small.image_in i []) ≡ 2
    row zero h = refl
    row (suc zero) h = refl
    row (suc (suc zero)) h = refl
    row (suc (suc (suc i))) h = absurd (omega arith)

filter-IsShaped : IsShaped small.filter 1 1
filter-IsShaped = record { rows = refl; columns = row }
  where
    row : (i : ℕ) → i < 1 → length (get_or small.filter i []) ≡ 1
    row zero h = refl
    row (suc i) h = absurd (omega arith)

parts_cover_run :
    (i : ℕ) × (i < 2)
    × (part_begin 3 2 i ≤ 1)
    × (1 < part_end 3 2 i)
    × ((j : ℕ) → part_begin 3 2 j ≤ 1 → 1 < part_end 3 2 j → i ≡ j)
parts_cover_run = parts_cover 3 2 1 (omega arith) (omega arith)

calc_pixel_value_in_bounds_example :
    calc_pixel_value integers (pos 0) (pos 0) small 2 1
    ≡ calc_pixel_value integers (pos 9) (pos 9) small 2 1
calc_pixel_value_in_bounds_example =
    calc_pixel_value_in_bounds integers (pos 0) (pos 9) (pos 0) (pos 9) small 2 1 image-IsShaped
      filter-IsShaped (omega arith) (omega arith)

process_image_complete_example :
    at (pos 0) (write_all integers (pos 0) (pos 0) small run (blank integers small)) 2 1
    ≡ calc_pixel_value integers (pos 0) (pos 0) small 2 1
process_image_complete_example =
    process_image_complete integers (pos 0) (pos 0) small 2 run 2 1 (omega arith) run-Interleaved
      (omega arith) (omega arith)

process_image_in_bounds_run : (2 < 3) × (1 < 2)
process_image_in_bounds_run = process_image_in_bounds 3 2 2 run 2 1 run-Interleaved refl
