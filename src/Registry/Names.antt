-- ===== src/Registry/Names.antt =====
-- What the array `clients` of lab10/GeislerWojciech/cw10/zad1/server.c holds between two calls: free
-- slots have the empty name, and no two clients share a name.
use agh_operating_systems.Base.{
  ℕ, zero, suc, ◌≤◌, ◌<◌, ◌≡◌, refl, ap, sym, Bool, true, false, none, some, List, [], ◌∷◌, length,
  replicate, length-replicate, if◌then◌else◌, arith,
}
use agh_operating_systems.Base.Int.{pos}
use agh_operating_systems.Base.Text.{CString, str_eq, str_eq_sound, str_eq_refl, str_eq_iff}
use agh_operating_systems.Registry.{
  Client, Registry, is_free, max_clients, no_client, find_client_by_name, init,
}

abbrev pub is_empty : CString → Bool
is_empty [] = true
is_empty (x ∷ xs) = false

abbrev pub WellFormed : List Client → Type 0
WellFormed [] = Unit
WellFormed (c ∷ cs) =
    (is_free c ≡ is_empty c.name)
    × (is_free c ≡ false → find_client_by_name c.name cs ≡ none)
    × WellFormed cs

abbrev pub live_count : List Client → ℕ
live_count [] = 0
live_count (c ∷ cs) = if is_free c then live_count cs else suc (live_count cs)

pub record IsValid (r : Registry) : Type 0 where
  pub len : length r.clients ≡ max_clients
  pub named : WellFormed r.clients
  pub count : r.client_count ≡ pos (live_count r.clients)

pub free-WellFormed : (n : ℕ) → WellFormed (replicate n no_client)
free-WellFormed zero = tt
free-WellFormed (suc n) = (refl, λ h. cc, free-WellFormed n)

live_count-free : (n : ℕ) → live_count (replicate n no_client) ≡ 0
live_count-free zero = refl
live_count-free (suc n) = live_count-free n

-- The registry that the program starts with is valid.
pub init-IsValid : IsValid init
unfolding init
init-IsValid = record {
  len = length-replicate max_clients no_client;
  named = free-WellFormed max_clients;
  count = ap pos (sym (live_count-free max_clients));
}

pub live_count-le : (cs : List Client) → live_count cs ≤ length cs
live_count-le [] = omega arith
live_count-le (c ∷ cs) = ground (arith, live_count-le cs)

-- A client that is found has the name that was asked for, and, unless that is empty, a socket.
pub find_client_by_name_sound :
    (name : CString) (cs : List Client) (c : Client)
    → WellFormed cs
    → is_empty name ≡ false
    → find_client_by_name name cs ≡ some c
    → (c.name ≡ name) × (is_free c ≡ false)
unfolding find_client_by_name
find_client_by_name_sound name [] c w h e = cc
find_client_by_name_sound name (d ∷ cs) c w h e =
    ground (arith, str_eq_sound d.name name, find_client_by_name_sound name cs c w.2 h)

module _ (new : Client) where
  -- The first free slot is given to `new`.
  abbrev pub fill : List Client → List Client
  fill [] = []
  fill (c ∷ cs) = if is_free c then new ∷ cs else c ∷ fill cs

  pub length-fill : (cs : List Client) → length (fill cs) ≡ length cs
  length-fill [] = refl
  length-fill (c ∷ cs) = ground (arith, length-fill cs)

  pub live_count-fill :
      (cs : List Client)
      → is_free new ≡ false
      → live_count cs < length cs
      → live_count (fill cs) ≡ suc (live_count cs)
  live_count-fill [] l h = absurd (omega arith)
  live_count-fill (c ∷ cs) l h = ground (arith, live_count-fill cs l)

  pub find-fill :
      (cs : List Client) (name : CString)
      → WellFormed cs
      → live_count cs < length cs
      → is_empty name ≡ false
      → find_client_by_name new.name cs ≡ none
      → find_client_by_name name (fill cs)
        ≡ (if str_eq new.name name then some new else find_client_by_name name cs)
  unfolding find_client_by_name
  find-fill [] name w h e f = absurd (omega arith)
  find-fill (c ∷ cs) name w h e f = ground (
    arith,
    find-fill cs name w.2,
    str_eq_iff c.name name,
    str_eq_iff c.name new.name,
    str_eq_iff new.name name,
    str_eq_refl name,
  )

  pub fill-WellFormed :
      (cs : List Client)
      → WellFormed cs
      → is_free new ≡ false
      → is_empty new.name ≡ false
      → find_client_by_name new.name cs ≡ none
      → live_count cs < length cs
      → WellFormed (fill cs)
  unfolding find_client_by_name
  fill-WellFormed [] w l e f h = tt
  fill-WellFormed (c ∷ cs) w l e f h = ground (
    arith,
    fill-WellFormed cs w.2 l e,
    find-fill cs c.name w.2,
    str_eq_iff new.name c.name,
    str_eq_iff c.name new.name,
  )
