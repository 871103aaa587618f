-- ===== src/Buffer/Tests.antt =====
-- The buffer of lab9/GeislerWojciech/cw09/zad1/main.c on small inputs.
use agh_operating_systems.Base.{
  ℕ, zero, suc, ◌<◌, ◌≡◌, refl, true, false, some, none, [], ◌∷◌, arith, ◌↔◌, ◌+◌, ◌%◌, get_or,
  get_elem?,
}
use agh_operating_systems.Base.Int.{pos}
use agh_operating_systems.Buffer.{
  Line, Buffer, Config, bigger, smaller, equal, unexpected, insert, remove, taken, matching,
  is_full,
}
use agh_operating_systems.Buffer.Queue.{Represents, insert_refines, remove_refines, is_full_iff}

abbrev sample : Config
sample = record { buffor_size = 2; thread_ttl = pos 0; threshold = pos 1; search_mode = bigger }

-- One line, in the last slot; the next write goes round to the first.
abbrev wrapped : Buffer
wrapped = record {
  slots = none ∷ some (97 ∷ 98 ∷ []) ∷ [];
  next_read = 1;
  next_write = 0;
  filled_slots = 1;
}

wrapped_held :
    (k : ℕ)
    → k < 2
    → get_or wrapped.slots ((1 + k) % 2) none ≡ get_elem? {A = Line} ((97 ∷ 98 ∷ []) ∷ []) k
wrapped_held zero h = refl
wrapped_held (suc zero) h = refl
wrapped_held (suc (suc k)) h = absurd (omega arith)

wrapped-Represents : Represents sample wrapped ((97 ∷ 98 ∷ []) ∷ [])
wrapped-Represents = record {
  small = omega arith;
  len = refl;
  read_in = omega arith;
  fits = omega arith;
  count = refl;
  write_at = refl;
  held = wrapped_held;
}

matching_tests :
    (matching (1 ∷ 2 ∷ []) sample ≡ some true)
    × (matching (1 ∷ []) (record sample { search_mode = equal }) ≡ some true)
    × (matching (1 ∷ []) (record sample { search_mode = smaller }) ≡ some false)
    × (matching [] (record sample { search_mode = unexpected }) ≡ none)
unfolding matching
matching_tests = (refl, refl, refl, refl)

insert_refines_example :
    (b : Buffer) × (insert sample (99 ∷ []) wrapped ≡ some b)
    × Represents sample b ((97 ∷ 98 ∷ []) ∷ (99 ∷ []) ∷ [])
insert_refines_example = insert_refines sample wrapped _ (99 ∷ []) wrapped-Represents (omega arith)

remove_refines_example :
    (b : Buffer) × (remove sample wrapped ≡ taken (97 ∷ 98 ∷ []) true b) × Represents sample b []
unfolding matching
remove_refines_example =
    remove_refines sample wrapped (97 ∷ 98 ∷ []) [] true wrapped-Represents refl

is_full_iff_run : (is_full sample wrapped ≡ true) ↔ (◌≡◌ {A = ℕ} 1 2)
is_full_iff_run = is_full_iff sample wrapped ((97 ∷ 98 ∷ []) ∷ []) wrapped-Represents
