-- ===== src/Image/Output.antt =====
-- The output of the threads of lab8/GeislerWojciech/cw08/zad1/main.c, in whatever order they write.
use agh_operating_systems.Base.{
  ℕ, zero, suc, ◌+◌, ◌-◌, ◌≤◌, ◌<◌, ◌≡◌, refl, ap, ◌∙◌, sym, Bool, true, false, ◌&&◌, ◌||◌, ◌==◌,
  List, [], ◌∷◌, ◌++◌, length, length-set, get_or, set, replicate, length-replicate, arith,
  if◌then◌else◌, leb, ltb, ℕ_discrete,
}
use agh_operating_systems.Base.Arrays.{get_or-set_self, get_or-set_ne}
use agh_operating_systems.Base.Int.{ℤ, pos}
use agh_operating_systems.Image.{
  Matrix, at, write, row_pixels, part_pixels, process_part, thread_pixels, Interleaved, joined,
  finished, step, part_begin, part_end, Floats, Job, calc_pixel_value, write_all, blank,
}
use agh_operating_systems.Image.Bounds.{IsShaped}
use agh_operating_systems.Image.Parts.{parts_cover, part_end-le}

-- Is the pixel among those?
abbrev pub has : ℕ → ℕ → List (ℕ × ℕ) → Bool
has i j [] = false
has i j ((a, b) ∷ pixels) = (a == i && b == j) || has i j pixels

abbrev pub has_any : ℕ → ℕ → List (List (ℕ × ℕ)) → Bool
has_any i j [] = false
has_any i j (p ∷ parts) = has i j p || has_any i j parts

has-append : (i j : ℕ) (p q : List (ℕ × ℕ)) → has i j (p ++ q) ≡ (has i j p || has i j q)
has-append i j [] q = refl
has-append i j ((a, b) ∷ p) q = ground (arith, has-append i j p q)

has_any-middle :
    (i j a b : ℕ) (before : List (List (ℕ × ℕ))) (p : List (ℕ × ℕ)) (after : List (List (ℕ × ℕ)))
    → has_any i j (before ++ (((a, b) ∷ p) ∷ after))
      ≡ ((a == i && b == j) || has_any i j (before ++ (p ∷ after)))
has_any-middle i j a b [] p after = ground arith
has_any-middle i j a b (q ∷ before) p after = ground (arith, has_any-middle i j a b before p after)

-- A run writes the pixels of its threads, and no others.
Interleaved-has :
    {parts : List (List (ℕ × ℕ))} {run : List (ℕ × ℕ)} (i j : ℕ)
    → Interleaved parts run
    → has i j run ≡ has_any i j parts
Interleaved-has i j joined = refl
Interleaved-has i j (finished r) = Interleaved-has i j r
Interleaved-has i j (step before {x = (a, b)} xs after r) =
    ground (arith, Interleaved-has i j r, has_any-middle i j a b before xs after)

has-row : (n a b i j : ℕ) → has i j (row_pixels n a b) ≡ (a == i && (leb b j && ltb j (b + n)))
unfolding row_pixels
has-row zero a b i j = ground arith
has-row (suc n) a b i j = ground (arith, has-row n a (b + 1) i j)

has-part : (w n a i j : ℕ) → has i j (part_pixels w n a) ≡ ((leb a i && ltb i (a + n)) && ltb j w)
unfolding part_pixels
has-part w zero a i j = ground arith
has-part w (suc n) a i j = ground (
  arith,
  has-append i j (row_pixels w a 0) (part_pixels w n (a + 1)),
  has-row w a 0 i j,
  has-part w n (a + 1) i j,
)

has-process_part :
    (w begin end i j : ℕ)
    → has i j (process_part w begin end) ≡ ((leb begin i && ltb i end) && ltb j w)
unfolding process_part
has-process_part w begin end i j = ground (arith, has-part w (end - begin) begin i j)

has_any-threads :
    (h w threads n k i j t : ℕ)
    → k ≤ t
    → t < k + n
    → part_begin h threads t ≤ i
    → i < part_end h threads t
    → j < w
    → has_any i j (thread_pixels h w threads n k) ≡ true
unfolding thread_pixels
has_any-threads h w threads zero k i j t a b c d e = absurd (omega arith)
has_any-threads h w threads (suc n) k i j t a b c d e = elim (ℕ_discrete k t) [
  | yes q ↦ ground (arith, has-process_part w (part_begin h threads k) (part_end h threads k) i j)
  | no q ↦ ground (arith, has_any-threads h w threads n (k + 1) i j t)
]

-- No thread writes outside the image.
has_any-outside :
    (h w threads n k i j : ℕ)
    → has_any i j (thread_pixels h w threads n k) ≡ true
    → (i < h) × (j < w)
unfolding thread_pixels
has_any-outside h w threads zero k i j e = cc
has_any-outside h w threads (suc n) k i j e = ground (
  arith,
  has-process_part w (part_begin h threads k) (part_end h threads k) i j,
  has_any-outside h w threads n (k + 1) i j,
  part_end-le h threads k,
)

module _ {A : Type 0} (m : Matrix A) (h w : ℕ) (s : IsShaped m h w) (a b : ℕ) (v : A) where
  write-IsShaped : IsShaped (write m a b v) h w
  write-IsShaped = record {
    rows = length-set m a (set (get_or m a []) b v) ∙ s.rows;
    columns = λ i hi. row i hi (ℕ_discrete a i);
  }
    where
      row : (i : ℕ) → i < h → Dec (a ≡ i) → length (get_or (write m a b v) i []) ≡ w
      row i hi (no n) =
          ap length (get_or-set_ne m a i (set (get_or m a []) b v) [] n) ∙ s.columns i hi
      row i hi (yes e) = rw (e) (
          ap length (get_or-set_self m i (set (get_or m i []) b v) [] (omega (arith, s.rows)))
          ∙ length-set (get_or m i []) b v
          ∙ s.columns i hi)

  at-write :
      (d : A) (i j : ℕ)
      → i < h
      → j < w
      → at d (write m a b v) i j ≡ (if a == i && b == j then v else at d m i j)
  at-write d i j hi hj = by_row (ℕ_discrete a i) (ℕ_discrete b j)
    where
      by_row :
          Dec (a ≡ i)
          → Dec (b ≡ j)
          → at d (write m a b v) i j ≡ (if a == i && b == j then v else at d m i j)
      by_row (no n) q =
          ap (λ r. get_or r j d) (get_or-set_ne m a i (set (get_or m a []) b v) [] n) ∙ ground arith
      by_row (yes e) (no n) =
          ap (λ r. get_or r j d)
            (ap (λ t. get_or (set m t (set (get_or m t []) b v)) i []) e
              ∙ get_or-set_self m i (set (get_or m i []) b v) [] (omega (arith, s.rows)))
          ∙ get_or-set_ne (get_or m i []) b j v d n
          ∙ ground arith
      by_row (yes e) (yes f) =
          ap (λ r. get_or r j d)
            (ap (λ t. get_or (set m t (set (get_or m t []) b v)) i []) e
              ∙ get_or-set_self m i (set (get_or m i []) b v) [] (omega (arith, s.rows)))
          ∙ ap (λ t. get_or (set (get_or m i []) t v) j d) f
          ∙ get_or-set_self (get_or m i []) j v d (omega (arith, s.columns i hi))
          ∙ ground arith

module _ (F : Floats) (d : ℤ) (e : F.Double) (job : Job F) where
  value : ℕ → ℕ → ℤ
  value i j = calc_pixel_value F d e job i j

  write_all-at :
      (pixels : List (ℕ × ℕ)) (out : Matrix ℤ) (h w i j : ℕ)
      → IsShaped out h w
      → i < h
      → j < w
      → at d (write_all F d e job pixels out) i j
        ≡ (if has i j pixels then value i j else at d out i j)
  unfolding write_all value
  write_all-at [] out h w i j s hi hj = refl
  write_all-at ((a, b) ∷ pixels) out h w i j s hi hj =
      write_all-at pixels (write out a b (calc_pixel_value F d e job a b)) h w i j
        (write-IsShaped out h w s a b (calc_pixel_value F d e job a b)) hi hj
      ∙ ap (λ t. if has i j pixels then calc_pixel_value F d e job i j else t)
          (at-write out h w s a b (calc_pixel_value F d e job a b) d i j hi hj)
      ∙ ground arith

  blank-IsShaped : IsShaped (blank F job) job.image_h job.image_w
  unfolding blank
  blank-IsShaped = record {
    rows = length-replicate job.image_h (replicate job.image_w (pos 0));
    columns = λ i hi. row_of job.image_h i hi;
  }
    where
      row_of :
          (n i : ℕ)
          → i < n
          → length (get_or (replicate n (replicate job.image_w (pos 0))) i []) ≡ job.image_w
      row_of zero i l = absurd (omega arith)
      row_of (suc n) zero l = length-replicate job.image_w (pos 0)
      row_of (suc n) (suc i) l = row_of n i (omega arith)

  -- In whatever order the threads write, once all are joined every pixel of the output is the value
  -- of that pixel: none is left out by the division into parts.
  pub process_image_complete :
      (threads : ℕ) (run : List (ℕ × ℕ)) (i j : ℕ)
      → 0 < threads
      → Interleaved (thread_pixels job.image_h job.image_w threads threads 0) run
      → i < job.image_h
      → j < job.image_w
      → at d (write_all F d e job run (blank F job)) i j ≡ calc_pixel_value F d e job i j
  unfolding value
  process_image_complete threads run i j t r hi hj =
      let (k, few, lo, hi', unique) = parts_cover job.image_h threads i t hi in
      let written =
        Interleaved-has i j r
        ∙ has_any-threads job.image_h job.image_w threads threads 0 i j k (omega arith)
            (omega arith) lo hi' hj in
      write_all-at run (blank F job) job.image_h job.image_w i j blank-IsShaped hi hj
      ∙ ap (λ t. if t then calc_pixel_value F d e job i j else at d (blank F job) i j) written

-- In whatever order the threads write, no write falls outside the image.
pub process_image_in_bounds :
    (h w threads : ℕ) (run : List (ℕ × ℕ)) (i j : ℕ)
    → Interleaved (thread_pixels h w threads threads 0) run
    → has i j run ≡ true
    → (i < h) × (j < w)
process_image_in_bounds h w threads run i j r e =
    has_any-outside h w threads threads 0 i j (sym (Interleaved-has i j r) ∙ e)
