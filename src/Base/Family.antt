-- ===== src/Base/Family.antt =====
-- Sums over a family of threads or descriptors, numbered from 0.
use agh_operating_systems.Base.{
  ℕ, zero, suc, ◌+◌, ◌≤◌, ◌<◌, ◌≡◌, refl, ◌≢◌, true, false, ◌==◌, arith, ℕ_discrete, update,
}

module _ {ℓ} {A : Type ℓ} where
  abbrev pub total : (A → ℕ) → ℕ → (ℕ → A) → ℕ
  total f zero s = 0
  total f (suc n) s = f (s n) + total f n s

  total-update_above :
      (f : A → ℕ) (n i : ℕ) (s : ℕ → A) (a : A) → n ≤ i → total f n (update s i a) ≡ total f n s
  total-update_above f zero i s a h = refl
  total-update_above f (suc n) i s a h = ground (arith, total-update_above f n i s a (omega arith))

  -- One member changes.
  pub total-update :
      (f : A → ℕ) (n i : ℕ) (s : ℕ → A) (a : A)
      → i < n
      → total f n (update s i a) + f (s i) ≡ total f n s + f a
  total-update f zero i s a h = absurd (omega arith)
  total-update f (suc n) i s a h = elim (ℕ_discrete i n) [
    | yes e ↦ ground (arith, total-update_above f n i s a (omega arith))
    | no ne ↦ ground (arith, total-update f n i s a (omega arith))
  ]

  -- A member counts at most the whole.
  pub total-ge : (f : A → ℕ) (n i : ℕ) (s : ℕ → A) → i < n → f (s i) ≤ total f n s
  total-ge f zero i s h = absurd (omega arith)
  total-ge f (suc n) i s h = elim (ℕ_discrete i n) [
    | yes e ↦ ground arith
    | no ne ↦ omega (arith, total-ge f n i s (omega arith))
  ]

  pub total_two :
      (f : A → ℕ) (n i j : ℕ) (s : ℕ → A) → i < n → j < n → i ≢ j → f (s i) + f (s j) ≤ total f n s
  total_two f zero i j s h k ne = absurd (omega arith)
  total_two f (suc n) i j s h k ne = elim (ℕ_discrete i n) [
    | yes e ↦ ground (arith, total-ge f n j s)
    | no ni ↦ elim (ℕ_discrete j n) [
      | yes e ↦ ground (arith, total-ge f n i s)
      | no nj ↦ omega (arith, total_two f n i j s (omega arith) (omega arith) ne)
    ]
  ]

  -- A sum that is not 0 has a member that is not 0.
  pub total_found :
      (f : A → ℕ) (n : ℕ) (s : ℕ → A) → 0 < total f n s → (i : ℕ) × (i < n) × (0 < f (s i))
  total_found f zero s h = absurd (omega arith)
  total_found f (suc n) s h = elim (ℕ_discrete (f (s n)) 0) [
    | yes e ↦ let (i, lt, pos) = total_found f n s (omega arith) in (i, omega arith, pos)
    | no ne ↦ (n, omega arith, omega arith)
  ]

  pub total_zero :
      (f : A → ℕ) (n : ℕ) (s : ℕ → A) → ((i : ℕ) → i < n → f (s i) ≡ 0) → total f n s ≡ 0
  total_zero f zero s h = refl
  total_zero f (suc n) s h =
      omega (arith, h n (omega arith), total_zero f n s (λ i lt. h i (omega arith)))

pub ==_refl : (n : ℕ) → (n == n) ≡ true
==_refl n = ground arith

pub ==_ne : (n m : ℕ) → n ≢ m → (n == m) ≡ false
==_ne n m ne = ground arith

-- What holds of the new member and of the others holds of all.
pub update_all {ℓ κ} :
    {A : Type ℓ} (P : ℕ → A → Type κ) (s : ℕ → A) (i : ℕ) (a : A)
    → P i a
    → ((j : ℕ) → i ≢ j → P j (s j))
    → (j : ℕ) → P j (update s i a j)
update_all P s i a h k j = elim (ℕ_discrete i j) [
  | yes e ↦ rw (← e) (rw (==_refl i) h)
  | no ne ↦ rw (==_ne i j ne) (k j ne)
]
