-- ===== src/Files/Modes.antt =====
-- `mode_to_str` of lab3/GeislerWojciech/cw03/zad1/main.c loses nothing of the permission bits.
use native.Mathlib.Nat.{
  mod-eq_of_lt, add-mul-mod_self_left, mod-lt, div-add-mod, pow-suc, one-le-pow,
}
use agh_operating_systems.Base.{
  ℕ, zero, suc, ◌+◌, ◌*◌, ◌/◌, ◌%◌, ◌^◌, ◌<◌, ◌≡◌, ◌≢◌, refl, sym, ap, ◌∙◌, ◌==◌, [], ◌∷◌, length,
  get_or, if◌then◌else◌, arith,
}
use agh_operating_systems.Base.Text.{CString}
use agh_operating_systems.Files.{permissions, mode_from, mode_to_str}

-- The number that a string of letters and dashes is in binary, a dash for 0.
abbrev pub read_mode : CString → ℕ
read_mode [] = 0
read_mode (c ∷ s) = (if c == 45 then 0 else 2 ^ length s) + read_mode s

permissions_letter : (i : ℕ) → i < 9 → get_or permissions i 0 ≢ 45
permissions_letter zero h = λ e. absurd (omega arith)
permissions_letter (suc zero) h = λ e. absurd (omega arith)
permissions_letter (suc (suc zero)) h = λ e. absurd (omega arith)
permissions_letter (suc (suc (suc zero))) h = λ e. absurd (omega arith)
permissions_letter (suc (suc (suc (suc zero)))) h = λ e. absurd (omega arith)
permissions_letter (suc (suc (suc (suc (suc zero))))) h = λ e. absurd (omega arith)
permissions_letter (suc (suc (suc (suc (suc (suc zero)))))) h = λ e. absurd (omega arith)
permissions_letter (suc (suc (suc (suc (suc (suc (suc zero))))))) h = λ e. absurd (omega arith)
permissions_letter (suc (suc (suc (suc (suc (suc (suc (suc zero)))))))) h =
    λ e. absurd (omega arith)
permissions_letter (suc (suc (suc (suc (suc (suc (suc (suc (suc i))))))))) h = absurd (omega arith)

length-mode_from : (n mode pos : ℕ) → length (mode_from n mode pos) ≡ n
unfolding mode_from
length-mode_from zero mode pos = refl
length-mode_from (suc n) mode pos = omega (arith, length-mode_from n mode (pos + 1))

split_half : (d q r h e m : ℕ) → m ≡ d * q + r → q ≡ 2 * h + e → m ≡ e * d + r + d * 2 * h
split_half d q r h e m k l = k ∙ rw l (grind arith)

below_double : (d r e : ℕ) → e < 2 → r < d → e * d + r < d * 2
below_double d r zero h k = grind arith
below_double d r (suc zero) h k = grind arith
below_double d r (suc (suc e)) h k = absurd (omega arith)

-- The highest of the last bits, and those below it.
mod_pow_suc : (n m : ℕ) → m % 2 ^ suc n ≡ m / 2 ^ n % 2 * 2 ^ n + m % 2 ^ n
mod_pow_suc n m =
    let d = 2 ^ n in
    let e = m / d % 2 in
    let r = m % d in
    ap (λ k. m % k) (pow-suc 2 n)
    ∙ ap (λ k. k % (d * 2))
        (split_half d (m / d) r (m / d / 2) e m (sym (div-add-mod m d))
          (sym (div-add-mod (m / d) 2)))
    ∙ add-mul-mod_self_left (e * d + r) (d * 2) (m / d / 2)
    ∙ mod-eq_of_lt (
        below_double d r e (mod-lt (m / d) (omega arith)) (mod-lt m (one-le-pow n 2 (omega arith))))

read_mode-mode_from :
    (n mode pos : ℕ) → pos + n ≡ 9 → read_mode (mode_from n mode pos) ≡ mode % 2 ^ n
unfolding mode_from
read_mode-mode_from zero mode pos h = omega arith
read_mode-mode_from (suc n) mode pos h = ground (
  arith,
  length-mode_from n mode (pos + 1),
  read_mode-mode_from n mode (pos + 1),
  mod_pow_suc n mode,
  permissions_letter pos,
)

-- `mode_to_str` makes nine characters, from which the last nine bits of the mode can be read back.
pub read_mode-mode_to_str :
    (mode : ℕ) → (length (mode_to_str mode) ≡ 9) × (read_mode (mode_to_str mode) ≡ mode % 512)
unfolding mode_to_str
read_mode-mode_to_str mode = (length-mode_from 9 mode 0, read_mode-mode_from 9 mode 0 (omega arith))
