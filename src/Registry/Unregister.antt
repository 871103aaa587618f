-- ===== src/Registry/Unregister.antt =====
-- `handle_unregister` of lab10/GeislerWojciech/cw10/zad1/server.c.
use agh_operating_systems.Base.{
  suc, ◌≡◌, refl, ap, ◌∙◌, sym, false, none, some, List, [], ◌∷◌, length, if◌then◌else◌, arith,
}
use agh_operating_systems.Base.Int.{pos, ◌-ℤ◌}
use agh_operating_systems.Base.Text.{CString, str_eq, str_eq_sound, str_eq_iff}
use agh_operating_systems.Registry.{
  Client, Registry, empty_slot, handle_unregister, find_client_by_name, close,
}
use agh_operating_systems.Registry.Names.{is_empty, WellFormed, live_count, IsValid}

abbrev pub vacated : Client → Client
vacated c = record { name = []; socket = 0; responsive = c.responsive }

-- The array with the first slot of that name emptied.
abbrev pub vacate : CString → List Client → List Client
vacate name [] = []
vacate name (c ∷ cs) = if str_eq c.name name then vacated c ∷ cs else c ∷ vacate name cs

absent_slot :
    (name : CString) (cs : List Client)
    → find_client_by_name name cs ≡ none
    → empty_slot name cs ≡ none
unfolding empty_slot find_client_by_name
absent_slot name [] h = refl
absent_slot name (c ∷ cs) h = ground (arith, absent_slot name cs)

known_slot :
    (name : CString) (cs : List Client) (c : Client)
    → find_client_by_name name cs ≡ some c
    → empty_slot name cs ≡ some (vacate name cs, c.socket)
unfolding empty_slot find_client_by_name
known_slot name [] c h = cc
known_slot name (d ∷ cs) c h = ground (arith, known_slot name cs c)

pub unregister_eq :
    (name : CString) (r : Registry) (c : Client)
    → find_client_by_name name r.clients ≡ some c
    → handle_unregister name r ≡ (
      record { clients = vacate name r.clients; client_count = r.client_count -ℤ pos 1 },
      close c.socket ∷ [],
    )
unfolding handle_unregister
unregister_eq name r c f = rw (known_slot name r.clients c f, handle_unregister)

length-vacate : (name : CString) (cs : List Client) → length (vacate name cs) ≡ length cs
length-vacate name [] = refl
length-vacate name (c ∷ cs) = ground (arith, length-vacate name cs)

live_count-vacate :
    (name : CString) (cs : List Client) (c : Client)
    → WellFormed cs
    → is_empty name ≡ false
    → find_client_by_name name cs ≡ some c
    → suc (live_count (vacate name cs)) ≡ live_count cs
unfolding find_client_by_name
live_count-vacate name [] c w e h = cc
live_count-vacate name (d ∷ cs) c w e h =
    ground (arith, live_count-vacate name cs c w.2 e, str_eq_sound d.name name)

find-vacate :
    (name : CString) (cs : List Client) (other : CString)
    → WellFormed cs
    → is_empty name ≡ false
    → is_empty other ≡ false
    → find_client_by_name other (vacate name cs)
      ≡ (if str_eq name other then none else find_client_by_name other cs)
unfolding find_client_by_name
find-vacate name [] other w e o = ground arith
find-vacate name (c ∷ cs) other w e o = ground (
  arith,
  find-vacate name cs other w.2 e o,
  str_eq_iff c.name name,
  str_eq_iff c.name other,
  str_eq_iff name other,
  str_eq_iff [] other,
)

vacate-WellFormed :
    (name : CString) (cs : List Client)
    → WellFormed cs
    → is_empty name ≡ false
    → WellFormed (vacate name cs)
unfolding find_client_by_name
vacate-WellFormed name [] w e = tt
vacate-WellFormed name (c ∷ cs) w e =
    ground (arith, vacate-WellFormed name cs w.2 e, find-vacate name cs c.name w.2 e)

-- What taking a client off leaves of the registry `r`.
pub record Unregistered (name : CString) (r r' : Registry) : Type 0 where
  pub valid : IsValid r'
  pub found :
      (other : CString)
      → is_empty other ≡ false
      → find_client_by_name other r'.clients
        ≡ (if str_eq name other then none else find_client_by_name other r.clients)

module _ (name : CString) (r : Registry) (v : IsValid r) where
  open v use {len, named, count}

  vacate-Unregistered :
      (c : Client)
      → is_empty name ≡ false
      → find_client_by_name name r.clients ≡ some c
      → Unregistered name r
          (record { clients = vacate name r.clients; client_count = r.client_count -ℤ pos 1 })
  unfolding ◌-ℤ◌
  vacate-Unregistered c e f = record {
    valid = record {
      len = length-vacate name r.clients ∙ len;
      named = vacate-WellFormed name r.clients named e;
      count =
          ap (λ t. t -ℤ pos 1) (count ∙ ap pos (sym (live_count-vacate name r.clients c named e f)))
          ∙ ground arith;
    };
    found = λ other o. find-vacate name r.clients other named e o;
  }

  -- The client with the name given is taken off and its socket closed; it is not found any more, and
  -- nobody else's entry changes. The name is not empty.
  pub unregister_known :
      (c : Client)
      → is_empty name ≡ false
      → find_client_by_name name r.clients ≡ some c
      → (r' : Registry) × (handle_unregister name r ≡ (r', close c.socket ∷ []))
        × Unregistered name r r'
  unregister_known c e f = (_, unregister_eq name r c f, vacate-Unregistered c e f)

  -- A name that no client has changes nothing.
  pub unregister_unknown :
      find_client_by_name name r.clients ≡ none → handle_unregister name r ≡ (r, [])
  unfolding handle_unregister
  unregister_unknown f = rw (absent_slot name r.clients f, handle_unregister)
