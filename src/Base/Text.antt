-- ===== src/Base/Text.antt =====
-- Zero-terminated strings as lists of their bytes, the end left out, with what the programs use of
-- <string.h>.
use agh_operating_systems.Base.{
  ℕ, zero, suc, ◌≡◌, refl, ap, ◌↔◌, Bool, true, false, ◌&&◌, ◌==◌, List, [], ◌∷◌, take, arith, ◌≤◌,
  length,
}

abbrev pub CString : Type 0
CString = List ℕ

-- `strcmp(s, t) == 0`
unfoldable pub str_eq : CString → CString → Bool
str_eq [] [] = true
str_eq (x ∷ xs) (y ∷ ys) = x == y && str_eq xs ys
str_eq _ _ = false

pub str_eq_refl : (s : CString) → str_eq s s ≡ true
unfolding str_eq
str_eq_refl [] = refl
str_eq_refl (x ∷ xs) = ground (arith, str_eq_refl xs)

pub str_eq_sound : (s t : CString) → str_eq s t ≡ true → s ≡ t
unfolding str_eq
str_eq_sound [] [] h = refl
str_eq_sound [] (y ∷ ys) h = cc
str_eq_sound (x ∷ xs) [] h = cc
str_eq_sound (x ∷ xs) (y ∷ ys) h = ground (arith, str_eq_sound xs ys)

pub str_eq_iff : (s t : CString) → (str_eq s t ≡ true) ↔ (s ≡ t)
str_eq_iff s t = (str_eq_sound s t, λ e. rw e (str_eq_refl t))

-- `strncpy(d, s, n)` into an array of more than `n` zero bytes, read back as a string.
abbrev pub strncpy : CString → ℕ → CString
strncpy s n = take n s

pub take_of_le {ℓ} : {A : Type ℓ} (n : ℕ) (xs : List A) → length xs ≤ n → take n xs ≡ xs
take_of_le zero [] h = refl
take_of_le (suc n) [] h = refl
take_of_le zero (x ∷ xs) h = absurd (omega arith)
take_of_le (suc n) (x ∷ xs) h = ap (λ t. x ∷ t) (take_of_le n xs (omega arith))
