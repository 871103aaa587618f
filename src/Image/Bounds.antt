-- ===== src/Image/Bounds.antt =====
-- The reads of `calc_pixel_value` of lab8/GeislerWojciech/cw08/zad1/main.c stay inside the arrays.
use agh_operating_systems.Base.{
  ℕ, zero, suc, ◌+◌, ◌<◌, ◌≡◌, refl, ap, ◌∙◌, List, [], ◌∷◌, length, get_or, arith, ◌-◌, dec_lt,
}
use agh_operating_systems.Base.Int.{ℤ, pos, ◌+ℤ◌, ◌-ℤ◌}
use mathlib.Core.Path.{ap₂}
use agh_operating_systems.Image.{
  divceil, get_idx, Matrix, at, at_int, Floats, Job, sum_row, sum_rows, calc_pixel_value,
}

-- Whatever the offset, the index lies within the image.
pub get_idx-lt :
    (filter_size origin offset size : ℕ)
    → 0 < size
    → (n : ℕ) × (get_idx filter_size origin offset size ≡ pos n) × (n < size)
unfolding get_idx divceil ◌-ℤ◌ ◌+ℤ◌
get_idx-lt filter_size origin offset size h =
    let half = divceil filter_size 2 in
    elim (dec_lt (origin + offset) half) [
      | yes low ↦ (0, ground arith, h)
      | no ge ↦ elim (dec_lt (origin + offset - half) size) [
        | yes inside ↦ (origin + offset - half, ground arith, inside)
        | no high ↦ (size - 1, ground arith, omega arith)
      ]
    ]

-- `m` has `h` rows of `w` elements.
pub record IsShaped {A : Type 0} (m : Matrix A) (h w : ℕ) : Type 0 where
  pub rows : length m ≡ h
  pub columns : (i : ℕ) → i < h → length (get_or m i []) ≡ w

get_or_in_range {ℓ} :
    {A : Type ℓ} (xs : List A) (i : ℕ) (d e : A) → i < length xs → get_or xs i d ≡ get_or xs i e
get_or_in_range [] i d e h = absurd (omega arith)
get_or_in_range (x ∷ xs) zero d e h = refl
get_or_in_range (x ∷ xs) (suc i) d e h = get_or_in_range xs i d e (omega arith)

at_in_range :
    {A : Type 0} (m : Matrix A) (h w i j : ℕ) (d e : A)
    → IsShaped m h w
    → i < h
    → j < w
    → at d m i j ≡ at e m i j
at_in_range m h w i j d e s hi hj =
    get_or_in_range (get_or m i []) j d e (omega (arith, s.columns i hi))

module _ (F : Floats) where
  open F use {Double, nought, add, scale, lround}

  module _ (d d' : ℤ) (e e' : Double) (job : Job F) (d1 d2 : ℕ)
      (image : IsShaped job.image_in job.image_h job.image_w)
      (filter : IsShaped job.filter job.filter_size job.filter_size) (row : d1 < job.image_h)
      (column : d2 < job.image_w) where
    sum_row-same :
        (n i j : ℕ) (sum : Double)
        → i < job.filter_size
        → n + j ≡ job.filter_size
        → sum_row F d e job d1 d2 n i j sum ≡ sum_row F d' e' job d1 d2 n i j sum
    unfolding sum_row
    sum_row-same zero i j sum hi h = refl
    sum_row-same (suc n) i j sum hi h =
        ap (sum_row F d e job d1 d2 n i (j + 1)) (
          ap₂ (λ p c. add sum (scale p c)) pixel
            (at_in_range job.filter job.filter_size job.filter_size i j e e' filter hi
              (omega arith)))
        ∙ sum_row-same n i (j + 1) (term d' e') hi (omega arith)
      where
        x : ℤ
        x = get_idx job.filter_size d1 i job.image_h

        y : ℤ
        y = get_idx job.filter_size d2 j job.image_w

        term : ℤ → Double → Double
        term p c = add sum (scale (at_int p job.image_in x y) (at c job.filter i j))

        pixel : at_int d job.image_in x y ≡ at_int d' job.image_in x y
        pixel =
            let (r, er, hr) = get_idx-lt job.filter_size d1 i job.image_h (omega arith) in
            let (s, es, hs) = get_idx-lt job.filter_size d2 j job.image_w (omega arith) in
            rw (er, es) (at_in_range job.image_in job.image_h job.image_w r s d d' image hr hs)

    sum_rows-same :
        (n i : ℕ) (sum : Double)
        → n + i ≡ job.filter_size
        → sum_rows F d e job d1 d2 n i sum ≡ sum_rows F d' e' job d1 d2 n i sum
    unfolding sum_rows
    sum_rows-same zero i sum h = refl
    sum_rows-same (suc n) i sum h =
        ap (sum_rows F d e job d1 d2 n (i + 1))
          (sum_row-same job.filter_size i 0 sum (omega arith) (omega arith))
        ∙ sum_rows-same n (i + 1) (sum_row F d' e' job d1 d2 job.filter_size i 0 sum) (omega arith)

    -- The value of a pixel of the image does not depend on what a read outside the arrays would give:
    -- for a pixel inside the image, all reads of the image and of the filter are inside their arrays.
    pub calc_pixel_value_in_bounds :
        calc_pixel_value F d e job d1 d2 ≡ calc_pixel_value F d' e' job d1 d2
    unfolding calc_pixel_value
    calc_pixel_value_in_bounds = ap lround (sum_rows-same job.filter_size 0 nought (omega arith))
