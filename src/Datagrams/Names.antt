-- ===== src/Datagrams/Names.antt =====
-- The names in the registry of lab10/GeislerWojciech/cw10/zad2/server.c: who is found after a slot was
-- marked, emptied or given away.
use mathlib.Core.Bool.{true≢false}
use agh_operating_systems.Base.{
  ℕ, suc, ◌+◌, ◌≡◌, refl, sym, ◌∙◌, ◌⊎◌, inl, inr, Bool, true, false, none, some, List, [], ◌∷◌,
  set, arith, if◌then◌else◌, Bool-cases,
}
use agh_operating_systems.Base.Text.{CString, str_eq, str_eq_sound, str_eq_refl}
use agh_operating_systems.Datagrams.{
  Client, is_free, available, scan, empty_slot, find_client_by_name, mark_responsive,
}

abbrev pub is_empty : CString → Bool
is_empty [] = true
is_empty (x ∷ xs) = false

-- A name that is not empty has one slot at most.
abbrev pub Distinct : List Client → Type 0
Distinct [] = Unit
Distinct (c ∷ cs) = ((is_free c ≡ true) ⊎ (find_client_by_name c.name cs ≡ none)) × Distinct cs

none_not_some : {c : Client} → none ≡ some c → ⊥
none_not_some e = ground arith

str_eq-empty : (s t : CString) → is_empty s ≡ true → is_empty t ≡ false → str_eq s t ≡ false
unfolding str_eq
str_eq-empty [] [] h k = k
str_eq-empty [] (y ∷ t) h k = refl
str_eq-empty (x ∷ s) t h k = ground arith

-- Some slot is free.
abbrev pub HasFree : List Client → Type 0
HasFree [] = ⊥
HasFree (c ∷ cs) = (is_free c ≡ true) ⊎ HasFree cs

scan_after :
    (name : CString) (cs : List Client) (i k : ℕ)
    → is_empty name ≡ false
    → find_client_by_name name cs ≡ none
    → scan name cs i (some k) ≡ available (some k)
unfolding scan find_client_by_name
scan_after name [] i k e h = refl
scan_after name (c ∷ cs) i k e h = ground (arith, scan_after name cs (i + 1) k e)

pub mark_responsive-found :
    (name : CString) (cs : List Client) (c : Client)
    → find_client_by_name name cs ≡ some c
    → (ds : List Client) × (mark_responsive name cs ≡ some ds)
      × ((other : CString)
          → find_client_by_name other ds ≡ (
              if str_eq name other
              then some (record c { responsive = true })
              else find_client_by_name other cs))
unfolding find_client_by_name mark_responsive
mark_responsive-found name [] c h = absurd (none_not_some h)
mark_responsive-found name (d ∷ cs) c h = elim (Bool-cases (str_eq d.name name)) [
  | inl same ↦ (
    record d { responsive = true } ∷ cs,
    ground arith,
    λ other. ground (arith, str_eq_sound d.name name same, h),
  )
  | inr other_name ↦
      let (ds, marked, found) = mark_responsive-found name cs c (ground (arith, h)) in
      (
        d ∷ ds,
        ground arith,
        λ other. ground (
          arith,
          found other,
          str_eq_sound name other,
          str_eq_sound d.name other,
          str_eq_refl name,
        ),
      )
]

pub mark_responsive-unknown :
    (name : CString) (cs : List Client)
    → find_client_by_name name cs ≡ none
    → mark_responsive name cs ≡ none
unfolding find_client_by_name mark_responsive
mark_responsive-unknown name [] h = refl
mark_responsive-unknown name (d ∷ cs) h = ground (arith, mark_responsive-unknown name cs)

-- With distinct names nobody is found under the name of an emptied slot, and everybody else is still.
pub empty_slot-found :
    (name : CString) (cs : List Client) (c : Client)
    → is_empty name ≡ false
    → Distinct cs
    → find_client_by_name name cs ≡ some c
    → (ds : List Client) × (empty_slot name cs ≡ some ds)
      × ((other : CString)
          → is_empty other ≡ false
          → find_client_by_name other ds
            ≡ (if str_eq name other then none else find_client_by_name other cs))
unfolding find_client_by_name empty_slot str_eq
empty_slot-found name [] c e v h = absurd (none_not_some h)
empty_slot-found name (d ∷ cs) c e (alone, v) h = elim (Bool-cases (str_eq d.name name)) [
  | inl same ↦ (
    record d { name = [] } ∷ cs,
    ground arith,
    λ other o. ground (
      arith,
      str_eq_sound d.name name same,
      str_eq_sound name other,
      str_eq-empty [] other refl o,
      str_eq_refl name,
      alone,
    ),
  )
  | inr other_name ↦
      let (ds, emptied, found) = empty_slot-found name cs c e v (ground (arith, h)) in
      (
        d ∷ ds,
        ground arith,
        λ other o. ground (
          arith,
          found other o,
          str_eq_sound name other,
          str_eq_sound d.name other,
          str_eq_refl name,
        ),
      )
]

-- A new client stands in the first free slot, and is found there.
pub scan-found :
    (name : CString) (cs : List Client) (new : Client) (i : ℕ)
    → new.name ≡ name
    → is_empty name ≡ false
    → find_client_by_name name cs ≡ none
    → HasFree cs
    → (j : ℕ) × (scan name cs i none ≡ available (some (i + j)))
      × ((other : CString)
          → is_empty other ≡ false
          → find_client_by_name other (set cs j new)
            ≡ (if str_eq name other then some new else find_client_by_name other cs))
unfolding find_client_by_name scan
scan-found name [] new i n e h f = elim f [ ]
scan-found name (d ∷ cs) new i n e h f = elim (Bool-cases (is_free d)) [
  | inl free ↦ (
    0,
    ground (arith, scan_after name cs (i + 1) i e, str_eq-empty d.name name free e),
    λ other o. ground (arith, n, str_eq-empty d.name other free o),
  )
  | inr taken ↦
      let (j, scanned, found) =
        scan-found name cs new (i + 1) n e (ground (arith, h)) (later taken f) in
      (
        suc j,
        ground (arith, scanned),
        λ other o. ground (
          arith,
          found other o,
          str_eq_sound name other,
          str_eq_sound d.name other,
          str_eq_refl name,
        ),
      )
]
  where
    later : is_free d ≡ false → HasFree (d ∷ cs) → HasFree cs
    later taken (inl free) = absurd (true≢false (sym free ∙ taken))
    later taken (inr rest) = rest
