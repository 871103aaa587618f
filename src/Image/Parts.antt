-- ===== src/Image/Parts.antt =====
-- The division of the rows among the threads in lab8/GeislerWojciech/cw08/zad1/main.c.
use agh_operating_systems.Base.{
  ℕ, ◌+◌, ◌*◌, ◌/◌, ◌%◌, ◌≤◌, ◌<◌, ◌≡◌, refl, arith, dec_lt, leb, ◌↔◌, if◌then◌else◌,
}
use native.Mathlib.Nat.{
  div-add-mod', mod-lt, div-mul-le_self, lt-div-mul-add, div-lt_iff_lt-mul, mul_comm,
}
use agh_operating_systems.Image.{divceil, part_len, part_begin, part_end}

divceil-exact : (x d : ℕ) → x % d ≡ 0 → divceil x d ≡ x / d
unfolding divceil
divceil-exact x d e = ground arith

divceil-rest : (x d : ℕ) → 0 < x % d → divceil x d ≡ x / d + 1
unfolding divceil
divceil-rest x d e = ground arith

-- `divceil` rounds up.
pub divceil_bounds : (x d : ℕ) → 0 < d → (x ≤ divceil x d * d) × (divceil x d * d < x + d)
divceil_bounds x d h = elim (dec_lt 0 (x % d)) [
  | no n ↦
      rw (divceil-exact x d (omega arith))
        (omega (arith, div-add-mod' x d), omega (arith, div-add-mod' x d))
  | yes p ↦
      rw (divceil-rest x d p)
        (omega (arith, div-add-mod' x d, mod-lt x h), omega (arith, div-add-mod' x d, mod-lt x h))
]

-- A row below `t * l + l` but not below `t * l` has quotient `t`.
quotient_unique : (l i s t : ℕ) → s * l ≤ i → i < s * l + l → t * l ≤ i → i < t * l + l → s ≡ t
quotient_unique l i s t a b c d = grind arith

module _ (h threads : ℕ) where
  abbrev len : ℕ
  len = part_len h threads

  part_end-eq :
      (i : ℕ) → part_end h threads i ≡ (if leb (i * len + len) h then i * len + len else h)
  unfolding part_end
  part_end-eq i = refl

  part_len-pos : 0 < threads → 0 < h → 0 < len
  unfolding part_len
  part_len-pos t p = ground (arith, divceil_bounds h threads t)

  rows_enough : 0 < threads → h ≤ threads * len
  unfolding part_len
  rows_enough t = omega (arith, divceil_bounds h threads t, mul_comm threads (divceil h threads))

  in_part_iff :
      (i row : ℕ)
      → row < h
      → ((part_begin h threads i ≤ row) × (row < part_end h threads i))
        ↔ ((i * len ≤ row) × (row < i * len + len))
  unfolding part_end
  in_part_iff i row l = ground arith

  -- Every row of the image belongs to exactly one of the threads, and no thread goes beyond the image.
  pub parts_cover :
      (row : ℕ)
      → 0 < threads
      → row < h
      → (i : ℕ) × (i < threads)
        × (part_begin h threads i ≤ row)
        × (row < part_end h threads i)
        × ((j : ℕ) → part_begin h threads j ≤ row → row < part_end h threads j → i ≡ j)
  parts_cover row t l =
      let pos = part_len-pos t (omega arith) in
      let inside =
        (in_part_iff (row / len) row l).1 (div-mul-le_self row len, lt-div-mul-add pos) in
      (
        row / len,
        (div-lt_iff_lt-mul pos).1 (omega (arith, rows_enough t)),
        inside.0,
        inside.1,
        λ j a b.
            let q = (in_part_iff j row l).0 (a, b) in
            quotient_unique len row (row / len) j (div-mul-le_self row len) (lt-div-mul-add pos) q.0
              q.1,
      )

  pub part_end-le : (i : ℕ) → part_end h threads i ≤ h
  part_end-le i = rw part_end-eq (ground arith)
