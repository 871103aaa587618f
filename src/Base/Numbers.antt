-- ===== src/Base/Numbers.antt =====
-- Arithmetic of indices that go round an array.
use native.Mathlib.Nat.{mod-eq_of_lt, mod-eq-sub-mod}
use agh_operating_systems.Base.{ℕ, ◌+◌, ◌-◌, ◌%◌, ◌<◌, ◌≡◌, ◌∙◌, dec_lt, arith}

-- Two different distances from the same place end at different places of the array.
pub mod_add_inj : (n r i j : ℕ) → r < n → i < n → j < n → (r + i) % n ≡ (r + j) % n → i ≡ j
mod_add_inj n r i j hr hi hj e = elim (dec_lt (r + i) n) [
  | yes a ↦ elim (dec_lt (r + j) n) [
    | yes b ↦ omega (arith, mod-eq_of_lt a, mod-eq_of_lt b)
    | no b ↦ omega (arith, mod-eq_of_lt a, wrapped j hj b)
  ]
  | no a ↦ elim (dec_lt (r + j) n) [
    | yes b ↦ omega (arith, mod-eq_of_lt b, wrapped i hi a)
    | no b ↦ omega (arith, wrapped i hi a, wrapped j hj b)
  ]
]
  where
    wrapped : (k : ℕ) → k < n → ¬ (r + k < n) → (r + k) % n ≡ r + k - n
    wrapped k hk h =
        mod-eq-sub-mod {n = r + k} {m = n} (omega arith)
        ∙ mod-eq_of_lt {n = r + k - n} {m = n} (omega arith)
