-- ===== src/Registry/Monitor.antt =====
-- One round of `monitor` of lab10/GeislerWojciech/cw10/zad1/server.c.
use mathlib.Core.Path.{subst, ap₂}
use mathlib.Core.List.{append_assoc}
use agh_operating_systems.Base.{
  ℕ, zero, suc, ◌+◌, ◌≡◌, refl, ap, ◌∙◌, sym, Bool, true, false, Option, none, some, List, [], ◌∷◌,
  ◌++◌, map, length, length-append, length-map, if◌then◌else◌, arith, get_or, set,
}
use agh_operating_systems.Base.Int.{pos, ◌-ℤ◌}
use agh_operating_systems.Base.Text.{CString, str_eq_sound, str_eq_refl, str_eq_iff}
use agh_operating_systems.Registry.{
  Client, Registry, is_free, max_clients, no_client, handle_unregister, find_client_by_name, Effect,
  close, send, ping, monitor_slot, monitor_from, monitor_round,
}
use agh_operating_systems.Registry.Names.{is_empty, WellFormed, live_count, IsValid}
use agh_operating_systems.Registry.Unregister.{vacated, vacate, unregister_eq}

-- What a round makes of a slot, and what it does for it.
abbrev pub checked : Client → Client
checked c =
    if is_free c then c else if c.responsive then record c { responsive = false } else vacated c

abbrev pub check_effects : Client → List Effect
check_effects c =
    if is_free c then [] else if c.responsive then send c.socket ping ∷ [] else close c.socket ∷ []

abbrev pub all_effects : List Client → List Effect
all_effects [] = []
all_effects (c ∷ cs) = check_effects c ++ all_effects cs

get_or-middle :
    (pre : List Client) (c : Client) (post : List Client)
    → get_or (pre ++ c ∷ post) (length pre) no_client ≡ c
get_or-middle [] c post = refl
get_or-middle (d ∷ pre) c post = get_or-middle pre c post

set-middle :
    (pre : List Client) (c d : Client) (post : List Client)
    → set (pre ++ c ∷ post) (length pre) d ≡ pre ++ d ∷ post
set-middle [] c d post = refl
set-middle (x ∷ pre) c d post = ap (λ t. x ∷ t) (set-middle pre c d post)

live_count-middle :
    (pre : List Client) (c d : Client) (post : List Client)
    → is_free c ≡ false
    → live_count (pre ++ c ∷ post)
      ≡ (if is_free d then suc (live_count (pre ++ d ∷ post)) else live_count (pre ++ d ∷ post))
live_count-middle [] c d post f = ground arith
live_count-middle (x ∷ pre) c d post f = ground (arith, live_count-middle pre c d post f)

name-middle :
    (pre : List Client) (c : Client) (post : List Client)
    → WellFormed (pre ++ c ∷ post)
    → is_free c ≡ false
    → is_empty c.name ≡ false
name-middle [] c post w f = ground arith
name-middle (d ∷ pre) c post w f = name-middle pre c post w.2 f

-- A client stands in the first slot with its name.
find-middle :
    (pre : List Client) (c : Client) (post : List Client)
    → WellFormed (pre ++ c ∷ post)
    → is_free c ≡ false
    → find_client_by_name c.name (pre ++ c ∷ post) ≡ some c
unfolding find_client_by_name
find-middle [] c post w f = ground (arith, str_eq_refl c.name)
find-middle (d ∷ pre) c post w f =
    ground (
      arith,
      find-middle pre c post w.2 f,
      str_eq_sound d.name c.name,
      name-middle pre c post w.2 f,
    )

vacate-middle :
    (pre : List Client) (c : Client) (post : List Client)
    → WellFormed (pre ++ c ∷ post)
    → is_free c ≡ false
    → vacate c.name (pre ++ c ∷ post) ≡ pre ++ vacated c ∷ post
unfolding find_client_by_name
vacate-middle [] c post w f = ground (arith, str_eq_refl c.name)
vacate-middle (d ∷ pre) c post w f = ground (
  arith,
  vacate-middle pre c post w.2 f,
  find-middle pre c post w.2 f,
  name-middle pre c post w.2 f,
  str_eq_sound d.name c.name,
)

find-checked :
    (pre : List Client) (c : Client) (post : List Client) (name : CString)
    → is_empty name ≡ false
    → find_client_by_name name (pre ++ c ∷ post) ≡ none
    → find_client_by_name name (pre ++ checked c ∷ post) ≡ none
unfolding find_client_by_name
find-checked [] c post name e h = ground (arith, str_eq_iff [] name)
find-checked (d ∷ pre) c post name e h = ground (arith, find-checked pre c post name e)

checked-WellFormed :
    (pre : List Client) (c : Client) (post : List Client)
    → WellFormed (pre ++ c ∷ post)
    → WellFormed (pre ++ checked c ∷ post)
unfolding find_client_by_name
checked-WellFormed [] c post w = ground arith
checked-WellFormed (d ∷ pre) c post w =
    ground (arith, checked-WellFormed pre c post w.2, find-checked pre c post d.name)

-- The registry with these slots and the counter that belongs to them.
abbrev pub counted : List Client → Registry
counted cs = record { clients = cs; client_count = pos (live_count cs) }

suc_minus : (n : ℕ) → pos (suc n) -ℤ pos 1 ≡ pos n
unfolding ◌-ℤ◌
suc_minus n = ground arith

monitor_slot_dead :
    (pre : List Client) (c : Client) (post : List Client)
    → WellFormed (pre ++ c ∷ post)
    → is_free c ≡ false
    → handle_unregister c.name (counted (pre ++ c ∷ post))
      ≡ (counted (pre ++ vacated c ∷ post), close c.socket ∷ [])
monitor_slot_dead pre c post w f =
    unregister_eq c.name (counted (pre ++ c ∷ post)) c (find-middle pre c post w f)
    ∙ ap₂ (λ cs n. (record { clients = cs; client_count = n }, close c.socket ∷ []))
        (vacate-middle pre c post w f)
        (ap (λ t. pos t -ℤ pos 1) (live_count-middle pre c (vacated c) post f)
          ∙ suc_minus (live_count (pre ++ vacated c ∷ post)))

monitor_slot_eq :
    (pre : List Client) (c : Client) (post : List Client)
    → WellFormed (pre ++ c ∷ post)
    → monitor_slot (length pre) (counted (pre ++ c ∷ post))
      ≡ (counted (pre ++ checked c ∷ post), check_effects c)
unfolding monitor_slot
monitor_slot_eq pre c post w =
    rw (get_or-middle pre c post) (by_slot (is_free c) c.responsive refl refl)
  where
    by_slot :
        (f b : Bool)
        → is_free c ≡ f
        → c.responsive ≡ b
        → (if is_free c
            then (counted (pre ++ c ∷ post), [])
            else if c.responsive
            then (
              record (counted (pre ++ c ∷ post)) {
                clients = set (pre ++ c ∷ post) (length pre) (record c { responsive = false });
              },
              send c.socket ping ∷ [],
            )
            else handle_unregister c.name (counted (pre ++ c ∷ post)))
          ≡ (counted (pre ++ checked c ∷ post), check_effects c)
    by_slot true b e g = rw e
    by_slot false true e g =
        rw (set-middle pre c (record c { responsive = false }) post)
          (ground (arith, live_count-middle pre c (record c { responsive = false }) post e))
    by_slot false false e g = ground (arith, monitor_slot_dead pre c post w e)

monitor_from_eq :
    (pre post : List Client) (n i : ℕ)
    → WellFormed (pre ++ post)
    → n ≡ length post
    → i ≡ length pre
    → monitor_from n i (counted (pre ++ post))
      ≡ (counted (pre ++ map checked post), all_effects post)
unfolding monitor_from
monitor_from_eq pre [] zero i w e h = refl
monitor_from_eq pre [] (suc n) i w e h = absurd (omega arith)
monitor_from_eq pre (c ∷ post) zero i w e h = absurd (omega arith)
monitor_from_eq pre (c ∷ post) (suc n) i w e h =
    rw (h, monitor_slot_eq pre c post w)
      (ap (λ t. (t.0, check_effects c ++ t.1))
        (ap (λ t. monitor_from n (length pre + 1) (counted t)) (sym (regroup post))
          ∙ monitor_from_eq (pre ++ checked c ∷ []) post n (length pre + 1)
              (subst WellFormed (sym (regroup post)) (checked-WellFormed pre c post w))
              (omega arith) (omega (arith, length-append pre (checked c ∷ [])))
          ∙ ap (λ t. (counted t, all_effects post)) (regroup (map checked post))))
  where
    regroup : (xs : List Client) → (pre ++ checked c ∷ []) ++ xs ≡ pre ++ checked c ∷ xs
    regroup xs = append_assoc pre (checked c ∷ []) xs

checked_all-WellFormed :
    (pre post : List Client) → WellFormed (pre ++ post) → WellFormed (pre ++ map checked post)
checked_all-WellFormed pre [] w = w
checked_all-WellFormed pre (c ∷ post) w =
    subst WellFormed (append_assoc pre (checked c ∷ []) (map checked post)) (
      checked_all-WellFormed (pre ++ checked c ∷ []) post (
        subst WellFormed (sym (append_assoc pre (checked c ∷ []) post))
          (checked-WellFormed pre c post w)))

-- One round takes off exactly the clients that have not answered since the last one, closing their
-- sockets, and pings all the others, each of which then counts as not having answered. Free slots
-- stay free, and the registry stays valid.
pub monitor_round_lem :
    (r : Registry)
    → IsValid r
    → (monitor_round r ≡ (counted (map checked r.clients), all_effects r.clients))
      × IsValid (counted (map checked r.clients))
unfolding monitor_round
monitor_round_lem r v = (
  ap (λ t. monitor_from max_clients 0 (record { clients = r.clients; client_count = t })) v.count
      ∙ monitor_from_eq [] r.clients max_clients 0 v.named (sym v.len) refl,
  record {
    len = length-map r.clients checked ∙ v.len;
    named = checked_all-WellFormed [] r.clients v.named;
    count = refl;
  },
)

-- What a round leaves of a client's entry.
abbrev pub survivor : Option Client → Option Client
survivor none = none
survivor (some c) = if c.responsive then some (record c { responsive = false }) else none

pub find-round :
    (cs : List Client) (name : CString)
    → WellFormed cs
    → is_empty name ≡ false
    → find_client_by_name name (map checked cs) ≡ survivor (find_client_by_name name cs)
unfolding find_client_by_name
find-round [] name w e = refl
find-round (d ∷ cs) name w e =
    ground (arith, find-round cs name w.2 e, str_eq_iff d.name name, str_eq_iff [] name)
