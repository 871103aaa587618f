-- ===== src/Image.antt =====
-- The threaded image filter of lab8/GeislerWojciech/cw08/zad1/main.c. Floating-point numbers are a
-- parameter. Sizes are natural numbers, since the program has read them from its input files.
pub mod Parts
pub mod Bounds
pub mod Output
mod Tests
use agh_operating_systems.Base.{
  ℕ, zero, suc, ◌+◌, ◌-◌, ◌*◌, ◌/◌, ◌%◌, Bool, true, false, List, [], ◌∷◌, ◌++◌, ltb, leb, ◌==◌,
  if◌then◌else◌, get_or, set, replicate,
}
use agh_operating_systems.Base.Int.{ℤ, pos, ◌+ℤ◌, ◌-ℤ◌, ltb_ℤ}

-- `double`, the product of a pixel and a coefficient, and `lround`.
pub record Floats : Type 1 where
  pub Double : Type 0
  pub nought : Double
  pub add : Double → Double → Double
  pub scale : ℤ → Double → Double
  pub lround : Double → ℤ

pub divceil : ℕ → ℕ → ℕ
divceil x divisor = if x % divisor == 0 then x / divisor else x / divisor + 1

-- `int idx = origin - divceil(filter_size, 2) + offset`, then held within the image.
pub get_idx : ℕ → ℕ → ℕ → ℕ → ℤ
unfolding divceil ◌-ℤ◌ ◌+ℤ◌
get_idx filter_size origin offset size =
    let idx = pos origin -ℤ pos (divceil filter_size 2) +ℤ pos offset in
    if ltb_ℤ idx (pos 0) then pos 0 else if ltb_ℤ idx (pos size) then idx else pos size -ℤ pos 1

-- The rows that `process_image` gives to thread `i`.
pub part_len : ℕ → ℕ → ℕ
unfolding divceil
part_len image_h threads = divceil image_h threads

pub part_begin : ℕ → ℕ → ℕ → ℕ
unfolding part_len
part_begin image_h threads i = i * part_len image_h threads

pub part_end : ℕ → ℕ → ℕ → ℕ
unfolding part_begin
part_end image_h threads i =
    if leb (part_begin image_h threads i + part_len image_h threads) image_h
    then part_begin image_h threads i + part_len image_h threads
    else image_h

abbrev pub Matrix : Type 0 → Type 0
Matrix A = List (List A)

-- `m[i][j]`; `d` is what a read outside the array gives.
abbrev pub at {ℓ} : {A : Type ℓ} → A → List (List A) → ℕ → ℕ → A
at d m i j = get_or (get_or m i []) j d

-- The same with indices that may be negative.
abbrev pub at_int {ℓ} : {A : Type ℓ} → A → List (List A) → ℤ → ℤ → A
at_int d m (pos i) (pos j) = at d m i j
at_int d m _ _ = d

abbrev pub write {ℓ} : {A : Type ℓ} → List (List A) → ℕ → ℕ → A → List (List A)
write m i j v = set m i (set (get_or m i []) j v)

-- The pixels that the loops of `process_part` write, in order: `n` columns from `j` on, and `n` rows
-- from `i` on.
pub row_pixels : ℕ → ℕ → ℕ → List (ℕ × ℕ)
row_pixels zero i j = []
row_pixels (suc n) i j = (i, j) ∷ row_pixels n i (j + 1)

pub part_pixels : ℕ → ℕ → ℕ → List (ℕ × ℕ)
unfolding row_pixels
part_pixels image_w zero i = []
part_pixels image_w (suc n) i = row_pixels image_w i 0 ++ part_pixels image_w n (i + 1)

-- `process_part` on rows `begin` to `end`; nothing if `end` is not behind `begin`.
pub process_part : ℕ → ℕ → ℕ → List (ℕ × ℕ)
unfolding part_pixels
process_part image_w begin end = part_pixels image_w (end - begin) begin

-- What each thread writes, the `n` threads from number `i` on.
pub thread_pixels : ℕ → ℕ → ℕ → ℕ → ℕ → List (List (ℕ × ℕ))
unfolding process_part part_begin part_end
thread_pixels image_h image_w threads zero i = []
thread_pixels image_h image_w threads (suc n) i =
    process_part image_w (part_begin image_h threads i) (part_end image_h threads i)
    ∷ thread_pixels image_h image_w threads n (i + 1)

-- The threads' writes in the order of a run: each thread keeps its own order, and all are joined.
pub data Interleaved {ℓ} {A : Type ℓ} : List (List A) → List A → Type ℓ where
  joined : Interleaved [] []
  finished :
      {rest : List (List A)} {run : List A} → Interleaved rest run → Interleaved ([] ∷ rest) run
  step :
      (before : List (List A)) {x : A} (xs : List A) (after : List (List A)) {run : List A}
      → Interleaved (before ++ (xs ∷ after)) run
      → Interleaved (before ++ ((x ∷ xs) ∷ after)) (x ∷ run)

module _ (F : Floats) where
  open F use {Double, nought, add, scale, lround}

  -- The image and the filter as they were read.
  pub record Job : Type 0 where
    pub filter_size : ℕ
    pub image_h : ℕ
    pub image_w : ℕ
    pub filter : Matrix Double
    pub image_in : Matrix ℤ

  -- The inner and the outer loop of `calc_pixel_value`. `d` and `e` stand for reads outside the arrays.
  module _ (d : ℤ) (e : Double) (job : Job) (d1 d2 : ℕ) where
    open job use {filter_size, image_h, image_w, filter, image_in}

    pub sum_row : ℕ → ℕ → ℕ → Double → Double
    unfolding get_idx
    sum_row zero i j sum = sum
    sum_row (suc n) i j sum = sum_row n i (j + 1) (
        add sum (
          scale
            (at_int d image_in (get_idx filter_size d1 i image_h)
              (get_idx filter_size d2 j image_w))
            (at e filter i j)))

    pub sum_rows : ℕ → ℕ → Double → Double
    unfolding sum_row
    sum_rows zero i sum = sum
    sum_rows (suc n) i sum = sum_rows n (i + 1) (sum_row filter_size i 0 sum)

    pub calc_pixel_value : ℤ
    unfolding sum_rows
    calc_pixel_value = lround (sum_rows filter_size 0 nought)

  -- `image_out` after the writes of a run, from the zeros of `calloc`.
  pub write_all : ℤ → Double → Job → List (ℕ × ℕ) → Matrix ℤ → Matrix ℤ
  unfolding calc_pixel_value
  write_all d e job [] out = out
  write_all d e job ((i, j) ∷ pixels) out =
      write_all d e job pixels (write out i j (calc_pixel_value d e job i j))

  pub blank : Job → Matrix ℤ
  blank job = replicate job.image_h (replicate job.image_w (pos 0))
