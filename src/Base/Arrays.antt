-- ===== src/Base/Arrays.antt =====
-- C arrays as lists: what a read gives after a write, a `calloc` or an append.
use agh_operating_systems.Base.{
  ℕ, zero, suc, ◌≤◌, ◌<◌, ◌≡◌, refl, ap, ◌≢◌, none, some, List, [], ◌∷◌, ◌++◌, length, get_elem?,
  get_or, set, replicate, arith,
}

module _ {ℓ} {A : Type ℓ} where
  pub get_or-replicate : (n i : ℕ) (a : A) → get_or (replicate n a) i a ≡ a
  get_or-replicate zero i a = refl
  get_or-replicate (suc n) zero a = refl
  get_or-replicate (suc n) (suc i) a = get_or-replicate n i a

  pub get_or-set_self :
      (xs : List A) (i : ℕ) (v d : A) → i < length xs → get_or (set xs i v) i d ≡ v
  get_or-set_self [] i v d h = absurd (omega arith)
  get_or-set_self (x ∷ xs) zero v d h = refl
  get_or-set_self (x ∷ xs) (suc i) v d h = get_or-set_self xs i v d (omega arith)

  pub get_or-set_ne :
      (xs : List A) (i j : ℕ) (v d : A) → i ≢ j → get_or (set xs i v) j d ≡ get_or xs j d
  get_or-set_ne [] i j v d h = refl
  get_or-set_ne (x ∷ xs) zero zero v d h = absurd (h refl)
  get_or-set_ne (x ∷ xs) zero (suc j) v d h = refl
  get_or-set_ne (x ∷ xs) (suc i) zero v d h = refl
  get_or-set_ne (x ∷ xs) (suc i) (suc j) v d h = get_or-set_ne xs i j v d (λ e. h (ap suc e))

  pub get_elem?_of_le : (xs : List A) (i : ℕ) → length xs ≤ i → get_elem? xs i ≡ none
  get_elem?_of_le [] i h = refl
  get_elem?_of_le (x ∷ xs) zero h = absurd (omega arith)
  get_elem?_of_le (x ∷ xs) (suc i) h = get_elem?_of_le xs i (omega arith)

  pub get_elem?-append_last : (xs : List A) (x : A) → get_elem? (xs ++ x ∷ []) (length xs) ≡ some x
  get_elem?-append_last [] x = refl
  get_elem?-append_last (y ∷ xs) x = get_elem?-append_last xs x

  pub get_elem?-append_ne :
      (xs : List A) (x : A) (i : ℕ) → i ≢ length xs → get_elem? (xs ++ x ∷ []) i ≡ get_elem? xs i
  get_elem?-append_ne [] x zero h = absurd (h refl)
  get_elem?-append_ne [] x (suc i) h = refl
  get_elem?-append_ne (y ∷ xs) x zero h = refl
  get_elem?-append_ne (y ∷ xs) x (suc i) h = get_elem?-append_ne xs x i (λ e. h (ap suc e))
