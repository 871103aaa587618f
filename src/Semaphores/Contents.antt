-- ===== src/Semaphores/Contents.antt =====
-- The lines that the slots of lab9/GeislerWojciech/cw09/zad2/main.c hold.
use mathlib.Core.List.{Perm, perm_middle}
use mathlib.Core.List.Perm.{rfl, cons, trans}
use agh_operating_systems.Base.{
  ℕ, zero, suc, ◌+◌, ◌≤◌, ◌<◌, ◌≡◌, refl, none, some, List, [], ◌∷◌, length, get_or, set, replicate,
  arith,
}
use agh_operating_systems.Buffer.{Line, Slots}

abbrev pub contents : Slots → List Line
contents [] = []
contents (none ∷ slots) = contents slots
contents (some line ∷ slots) = line ∷ contents slots

pub contents-le : (slots : Slots) → length (contents slots) ≤ length slots
contents-le [] = omega arith
contents-le (none ∷ slots) = omega (arith, contents-le slots)
contents-le (some line ∷ slots) = omega (arith, contents-le slots)

pub contents-replicate : (n : ℕ) → contents (replicate n none) ≡ []
contents-replicate zero = refl
contents-replicate (suc n) = contents-replicate n

-- A line goes into an empty slot.
pub contents_put :
    (slots : Slots) (p : ℕ) (line : Line)
    → p < length slots
    → get_or slots p none ≡ none
    → Perm (contents (set slots p (some line))) (line ∷ contents slots)
contents_put [] p line h e = absurd (omega arith)
contents_put (none ∷ slots) zero line h e = rfl
contents_put (some other ∷ slots) zero line h e = cc
contents_put (none ∷ slots) (suc p) line h e = contents_put slots p line (omega arith) e
contents_put (some other ∷ slots) (suc p) line h e =
    trans (cons other (contents_put slots p line (omega arith) e))
      (perm_middle (other ∷ []) (contents slots))

-- The line of a slot is taken out.
pub contents_take :
    (slots : Slots) (p : ℕ) (line : Line)
    → get_or slots p none ≡ some line
    → Perm (contents slots) (line ∷ contents (set slots p none))
contents_take [] p line e = cc
contents_take (none ∷ slots) zero line e = cc
contents_take (some other ∷ slots) zero line e = let same : other ≡ line = cc in rw same rfl
contents_take (none ∷ slots) (suc p) line e = contents_take slots p line e
contents_take (some other ∷ slots) (suc p) line e =
    trans (cons other (contents_take slots p line e))
      (perm_middle (other ∷ []) (contents (set slots p none)))

-- Where a slot is empty, there are fewer lines than slots; where no slot is, as many.
pub empty_slot :
    (slots : Slots)
    → length (contents slots) < length slots
    → (p : ℕ) × (p < length slots) × (get_or slots p none ≡ none)
empty_slot [] h = absurd (omega arith)
empty_slot (none ∷ slots) h = (0, omega arith, refl)
empty_slot (some line ∷ slots) h =
    let (p, lt, e) = empty_slot slots (omega arith) in (suc p, omega arith, e)

pub filled_slot :
    (slots : Slots)
    → 0 < length (contents slots)
    → (p : ℕ) × (line : Line) × (p < length slots) × (get_or slots p none ≡ some line)
filled_slot [] h = absurd (omega arith)
filled_slot (some line ∷ slots) h = (0, line, omega arith, refl)
filled_slot (none ∷ slots) h =
    let (p, line, lt, e) = filled_slot slots (omega arith) in (suc p, line, omega arith, e)

pub length-contents_put :
    (slots : Slots) (p : ℕ) (line : Line)
    → p < length slots
    → get_or slots p none ≡ none
    → length (contents (set slots p (some line))) ≡ length (contents slots) + 1
length-contents_put [] p line h e = absurd (omega arith)
length-contents_put (none ∷ slots) zero line h e = omega arith
length-contents_put (some other ∷ slots) zero line h e = cc
length-contents_put (none ∷ slots) (suc p) line h e =
    length-contents_put slots p line (omega arith) e
length-contents_put (some other ∷ slots) (suc p) line h e =
    omega (arith, length-contents_put slots p line (omega arith) e)

pub length-contents_take :
    (slots : Slots) (p : ℕ) (line : Line)
    → get_or slots p none ≡ some line
    → length (contents slots) ≡ length (contents (set slots p none)) + 1
length-contents_take [] p line e = cc
length-contents_take (none ∷ slots) zero line e = cc
length-contents_take (some other ∷ slots) zero line e = omega arith
length-contents_take (none ∷ slots) (suc p) line e = length-contents_take slots p line e
length-contents_take (some other ∷ slots) (suc p) line e =
    omega (arith, length-contents_take slots p line e)
