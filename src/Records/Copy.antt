-- ===== src/Records/Copy.antt =====
-- What `copy` of lab2/GeislerWojciech/cw02/zad1/main.c writes, with system calls and with the library.
use mathlib.Core.List.{append-nil}
use agh_operating_systems.Base.{
  ℕ, zero, suc, ◌+◌, ◌*◌, ◌≤◌, ◌<◌, ◌≡◌, refl, ◌⊎◌, inl, inr, ap, true, false, List, [], ◌∷◌, ◌++◌,
  length, take, drop, arith, dec_lt, length-take, length-drop,
}
use agh_operating_systems.Base.Text.{take_of_le}
use agh_operating_systems.Records.{read_bytes, copy}

take_nil : (n : ℕ) → take {A = ℕ} n [] ≡ []
take_nil zero = refl
take_nil (suc n) = refl

take-suc : (n : ℕ) (x : ℕ) (xs : List ℕ) (m : ℕ) → m ≡ suc n → take m (x ∷ xs) ≡ x ∷ take n xs
take-suc n x xs m h = rw h refl

take_add : (a b c : ℕ) (xs : List ℕ) → c ≡ a + b → take a xs ++ take b (drop a xs) ≡ take c xs
take_add zero b c xs h = ap (λ n. take n xs) (omega arith)
take_add (suc a) b c [] h = ground (arith, take_nil b, take_nil c)
take_add (suc a) b c (x ∷ xs) h =
    ground (arith, take_add a b (a + b) xs refl, take-suc (a + b) x xs c)

mul_suc : (n size : ℕ) → suc n * size ≡ size + n * size
mul_suc n size = grind arith

-- A short read was the last of the source.
take_short : (a c : ℕ) (xs : List ℕ) → length (take a xs) < a → a ≤ c → take a xs ≡ take c xs
take_short a c xs h le =
    let short : length xs ≤ a = omega (arith, length-take a xs) in
    ground (arith, take_of_le a xs, take_of_le c xs)

copy_sys : (n size : ℕ) (bytes : List ℕ) → copy true n size bytes ≡ take (n * size) bytes
unfolding copy read_bytes
copy_sys zero size bytes = ground arith
copy_sys (suc n) size bytes = ground (
  arith,
  copy_sys n size (drop size bytes),
  mul_suc n size,
  take_add size (n * size) (suc n * size) bytes,
  take_short size (suc n * size) bytes,
  append-nil (take size bytes),
)

copy_lib :
    (n size : ℕ) (bytes : List ℕ)
    → (m : ℕ) × (copy false n size bytes ≡ take (m * size) bytes)
      × (m ≤ n)
      × (m * size ≤ length bytes)
      × ((m ≡ n) ⊎ (length bytes < suc m * size))
unfolding copy read_bytes
copy_lib zero size bytes = (0, ground arith, omega arith, grind arith, inl refl)
copy_lib (suc n) size bytes = elim (dec_lt (length bytes) size) [
  | yes short ↦ (0, ground arith, omega arith, grind arith, inr grind arith)
  | no enough ↦
      let (m, run, le, fits, end) = copy_lib n size (drop size bytes) in
      (
        suc m,
        ground (
          arith,
          run,
          mul_suc m size,
          take_add size (m * size) (suc m * size) bytes,
          length-take size bytes,
        ),
        omega arith,
        omega (arith, fits, mul_suc m size, length-drop size bytes),
        elim end [
          | inl e ↦ inl (ap suc e)
          | inr lt ↦
              inr omega (arith, lt, mul_suc m size, mul_suc (suc m) size, length-drop size bytes)
        ],
      )
]

-- With system calls `copy` writes as many bytes of the source as asked for, or all that there are. With
-- the library it writes whole records only: all that are asked for or, in a source that ends before, all
-- that it has, and not the bytes that are left behind the last of them.
pub copy_lem :
    (n size : ℕ) (bytes : List ℕ)
    → (copy true n size bytes ≡ take (n * size) bytes)
      × ((m : ℕ) × (copy false n size bytes ≡ take (m * size) bytes)
          × (m ≤ n)
          × (m * size ≤ length bytes)
          × ((m ≡ n) ⊎ (length bytes < suc m * size)))
copy_lem n size bytes = (copy_sys n size bytes, copy_lib n size bytes)
