-- ===== src/Blocks/Nearest.antt =====
-- What `find_nearest` of lab1/GeislerWojciech/cw01/zad1/chararray.c looks for: the first block, other
-- than the target, whose sum is nearest to that of the target.
use agh_operating_systems.Base.{
  ℕ, zero, suc, ◌+◌, ◌≤◌, ◌<◌, ◌≡◌, refl, ap, ◌≢◌, ◌⊎◌, inl, inr, Option, none, some, List, [], ◌∷◌,
  length, get_or, arith, ℕ_discrete, dec_lt,
}
use agh_operating_systems.Base.Int.{ℤ, pos}
use agh_operating_systems.Blocks.{
  Block, BlockArray, Statics, sum_block, distance, int_max, Best, compare_block, scan_blocks,
  all_blocks, find_nearest,
}

-- Every block is there and ends, and these are the sums, none of which overflows on the way.
pub data Summed : List (Option Block) → List ℤ → Type 0 where
  done : Summed [] []
  next :
      {b : Block}
      → {s : ℤ} → {bs : List (Option Block)} → {ss : List ℤ} → sum_block b ≡ some s
      → Summed bs ss
      → Summed (some b ∷ bs) (s ∷ ss)

-- The difference of the `j`-th of the sums from `t`.
abbrev pub difference : List ℤ → ℤ → ℕ → ℕ
difference ss t j = distance (get_or ss j (pos 0)) t

-- `r` is the best of `best` and the blocks with these sums, the first of which has the index `i`.
record Scanned (ss : List ℤ) (i target : ℕ) (t : ℤ) (best r : Best) : Type 0 where
  bound : r.diff ≤ best.diff
  least : (j : ℕ) → j < length ss → i + j ≢ target → r.diff ≤ difference ss t j
  found :
      (r ≡ best)
      ⊎ ((j : ℕ) × (r.index ≡ i + j)
          × (j < length ss)
          × (i + j ≢ target)
          × (r.diff ≡ difference ss t j)
          × (r.diff < best.diff)
          × ((k : ℕ) → k < j → i + k ≢ target → r.diff < difference ss t k))

-- The target itself is passed over.
Scanned-skip :
    (ss : List ℤ) (s : ℤ) (i target : ℕ) (t : ℤ) (best r : Best)
    → i ≡ target
    → Scanned ss (i + 1) target t best r
    → Scanned (s ∷ ss) i target t best r
Scanned-skip ss s i target t best r e h = record {
  bound = h.bound;
  least = least';
  found = elim h.found [
    | inl same ↦ inl same
    | inr (j, at, lt, ne, diff, less, first) ↦
        inr (suc j, omega arith, omega arith, (λ k. ne (omega arith)), diff, less, first' j first)
  ];
}
  where
    least' : (j : ℕ) → j < suc (length ss) → i + j ≢ target → r.diff ≤ difference (s ∷ ss) t j
    least' zero lt ne = absurd (ne (omega arith))
    least' (suc j) lt ne = h.least j (omega arith) (λ k. ne (omega arith))

    first' :
        (j : ℕ)
        → ((k : ℕ) → k < j → i + 1 + k ≢ target → r.diff < difference ss t k)
        → (k : ℕ) → k < suc j
        → i + k ≢ target
        → r.diff < difference (s ∷ ss) t k
    first' j first zero lt ne = absurd (ne (omega arith))
    first' j first (suc k) lt ne = first k (omega arith) (λ n. ne (omega arith))

-- A block other than the target that is nearer is taken.
Scanned-better :
    (ss : List ℤ) (s : ℤ) (i target : ℕ) (t : ℤ) (best r : Best)
    → i ≢ target
    → distance s t < best.diff
    → Scanned ss (i + 1) target t (record { diff = distance s t; index = i }) r
    → Scanned (s ∷ ss) i target t best r
Scanned-better ss s i target t best r e lt h = record {
  bound = omega (arith, h.bound);
  least = least';
  found = elim h.found [
    | inl same ↦ inr (
      0,
      omega (arith, ap (λ x. x.index) same),
      omega arith,
      (λ k. e (omega arith)),
      ap (λ x. x.diff) same,
      omega (arith, h.bound),
      λ k lt ne. absurd (omega arith),
    )
    | inr (j, at, lt', ne, diff, less, first) ↦ inr (
      suc j,
      omega arith,
      omega arith,
      (λ k. ne (omega arith)),
      diff,
      omega (arith, less, lt),
      first' j less first,
    )
  ];
}
  where
    least' : (j : ℕ) → j < suc (length ss) → i + j ≢ target → r.diff ≤ difference (s ∷ ss) t j
    least' zero lt ne = h.bound
    least' (suc j) lt ne = h.least j (omega arith) (λ k. ne (omega arith))

    first' :
        (j : ℕ)
        → r.diff < distance s t
        → ((k : ℕ) → k < j → i + 1 + k ≢ target → r.diff < difference ss t k)
        → (k : ℕ) → k < suc j
        → i + k ≢ target
        → r.diff < difference (s ∷ ss) t k
    first' j less first zero lt ne = less
    first' j less first (suc k) lt ne = first k (omega arith) (λ n. ne (omega arith))

-- One that is not nearer is left.
Scanned-keep :
    (ss : List ℤ) (s : ℤ) (i target : ℕ) (t : ℤ) (best r : Best)
    → best.diff ≤ distance s t
    → Scanned ss (i + 1) target t best r
    → Scanned (s ∷ ss) i target t best r
Scanned-keep ss s i target t best r ge h = record {
  bound = h.bound;
  least = least';
  found = elim h.found [
    | inl same ↦ inl same
    | inr (j, at, lt, ne, diff, less, first) ↦
        inr (
          suc j,
          omega arith,
          omega arith,
          (λ k. ne (omega arith)),
          diff,
          less,
          first' j less first,
        )
  ];
}
  where
    least' : (j : ℕ) → j < suc (length ss) → i + j ≢ target → r.diff ≤ difference (s ∷ ss) t j
    least' zero lt ne = omega (arith, h.bound)
    least' (suc j) lt ne = h.least j (omega arith) (λ k. ne (omega arith))

    first' :
        (j : ℕ)
        → r.diff < best.diff
        → ((k : ℕ) → k < j → i + 1 + k ≢ target → r.diff < difference ss t k)
        → (k : ℕ) → k < suc j
        → i + k ≢ target
        → r.diff < difference (s ∷ ss) t k
    first' j less first zero lt ne = omega arith
    first' j less first (suc k) lt ne = first k (omega arith) (λ n. ne (omega arith))

scan_blocks-found :
    (bs : List (Option Block)) (ss : List ℤ) (i target : ℕ) (t : ℤ) (best : Best)
    → Summed bs ss
    → ((j : ℕ) → j < length ss → i + j ≢ target → difference ss t j ≤ int_max)
    → (r : Best) × (scan_blocks bs i target t best ≡ some r) × Scanned ss i target t best r
unfolding scan_blocks compare_block
scan_blocks-found bs ss i target t best done fits = (
  best,
  refl,
  record { bound = omega arith; least = λ j h k. absurd (omega arith); found = inl refl },
)
scan_blocks-found (some b ∷ bs) (s ∷ ss) i target t best (next e h) fits =
    elim (ℕ_discrete i target) [
      | yes same ↦
          let (r, ran, scanned) = scan_blocks-found bs ss (i + 1) target t best h later_fit in
          (r, ground arith, Scanned-skip ss s i target t best r same scanned)
      | no other ↦ elim (dec_lt (distance s t) best.diff) [
        | yes lt ↦
            let better : Best = record { diff = distance s t; index = i } in
            let (r, ran, scanned) = scan_blocks-found bs ss (i + 1) target t better h later_fit in
            let here = fits 0 (omega arith) (λ k. other (omega arith)) in
            (r, ground arith, Scanned-better ss s i target t best r other lt scanned)
        | no ge ↦
            let (r, ran, scanned) = scan_blocks-found bs ss (i + 1) target t best h later_fit in
            let here = fits 0 (omega arith) (λ k. other (omega arith)) in
            (r, ground arith, Scanned-keep ss s i target t best r (omega arith) scanned)
      ]
    ]
  where
    later_fit : (j : ℕ) → j < length ss → i + 1 + j ≢ target → difference ss t j ≤ int_max
    later_fit j lt ne = fits (suc j) (omega arith) (λ k. ne (omega arith))

get_or-Summed :
    (bs : List (Option Block)) (ss : List ℤ) (i : ℕ)
    → Summed bs ss
    → i < length ss
    → (b : Block) × (get_or bs i none ≡ some b) × (sum_block b ≡ some (get_or ss i (pos 0)))
get_or-Summed bs ss i done h = absurd (omega arith)
get_or-Summed (some b ∷ bs) (s ∷ ss) zero (next e rest) h = (b, refl, e)
get_or-Summed (some b ∷ bs) (s ∷ ss) (suc i) (next e rest) h =
    get_or-Summed bs ss i rest (omega arith)

-- Where all blocks are there and end, their sums do not overflow, no sum differs from the target's by more
-- than `INT_MAX`, and that of some block other than the target by less, `find_nearest` ends with the index of a block other than
-- the target; no other block is nearer to the target, and none before it is as near.
pub find_nearest_lem :
    (arr : BlockArray) (statics : Statics) (target : ℕ) (ss : List ℤ)
    → Summed (all_blocks arr statics) ss
    → target < length ss
    → (j : ℕ) → j < length ss
    → j ≢ target
    → difference ss (get_or ss target (pos 0)) j < int_max
    → ((k : ℕ) → k < length ss → k ≢ target → difference ss (get_or ss target (pos 0)) k ≤ int_max)
    → (n : ℕ) × (find_nearest arr statics target ≡ some n)
      × (n < length ss)
      × (n ≢ target)
      × ((k : ℕ)
          → k < length ss
          → k ≢ target
          → difference ss (get_or ss target (pos 0)) n ≤ difference ss (get_or ss target (pos 0)) k)
      × ((k : ℕ)
          → k < n
          → k ≢ target
          → difference ss (get_or ss target (pos 0)) n < difference ss (get_or ss target (pos 0)) k)
unfolding find_nearest
find_nearest_lem arr statics target ss all h j hj ne near fits =
    let t = get_or ss target (pos 0) in
    let (b, at, sum) = get_or-Summed (all_blocks arr statics) ss target all h in
    let (r, ran, scanned) =
      scan_blocks-found (all_blocks arr statics) ss 0 target t
        (record { diff = int_max; index = 0 }) all (λ k lt e. fits k lt (λ x. e (omega arith))) in
    elim scanned.found [
      | inl same ↦
          absurd (omega (arith, scanned.least j hj (λ e. ne (omega arith)), ap (λ x. x.diff) same))
      | inr (n, index, lt, other, diff, less, first) ↦ (
        n,
        ground arith,
        lt,
        (λ e. other (omega arith)),
        (λ k hk e. omega (arith, scanned.least k hk (λ x. e (omega arith)))),
        λ k hk e. omega (arith, first k hk (λ x. e (omega arith))),
      )
    ]
