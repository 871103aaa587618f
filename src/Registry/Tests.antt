-- ===== src/Registry/Tests.antt =====
-- The registry of lab10/GeislerWojciech/cw10/zad1/server.c with one client, and its theorems there.
use agh_operating_systems.Base.{
  ℕ, zero, suc, ◌+◌, ◌<◌, ◌≡◌, refl, true, false, none, some, List, [], ◌∷◌, replicate, arith, map,
  get_or,
}
use agh_operating_systems.Base.Int.{pos, ◌+ℤ◌}
use agh_operating_systems.Base.Text.{str_eq}
use agh_operating_systems.Registry.{
  Client, Registry, is_free, max_clients, no_client, init, handle_register, handle_unregister,
  handle_closed, find_client_by_name, process_message, monitor_round, get_random_client, send,
  close, register_ack, name_taken,
}
use agh_operating_systems.Registry.Names.{IsValid, WellFormed, free-WellFormed}
use agh_operating_systems.Registry.Register.{
  Registered, register_new, register_taken, register_full,
}
use agh_operating_systems.Registry.Unregister.{Unregistered, unregister_known}
use agh_operating_systems.Registry.Monitor.{monitor_round_lem, counted, checked, all_effects}
use agh_operating_systems.Registry.Random.{get_random_client_live}

abbrev bob : Client
bob = record { name = 98 ∷ []; socket = 7; responsive = true }

abbrev with_bob : Registry
with_bob = record { clients = bob ∷ replicate 19 no_client; client_count = pos 1 }

with_bob-IsValid : IsValid with_bob
unfolding find_client_by_name str_eq
with_bob-IsValid = record {
  len = refl;
  named = (refl, λ h. refl, free-WellFormed 19);
  count = refl;
}

process_tests :
    (process_message 0x11 (98 ∷ []) 7 init ≡ some (with_bob, send 7 register_ack ∷ []))
    × (process_message 0x11 (98 ∷ []) 9 with_bob ≡ some (with_bob, send 9 name_taken ∷ []))
    × (process_message 0x77 [] 7 with_bob ≡ some (with_bob, []))
    × (process_message 0x66 (99 ∷ []) 7 with_bob ≡ some (with_bob, []))
    × ((handle_closed 7 with_bob).1 ≡ close 7 ∷ [])
unfolding process_message init str_eq handle_closed ◌+ℤ◌
process_tests = (refl, refl, refl, refl, refl)

-- With two free slots, the empty name is refused as a duplicate.
nameless_refused : handle_register [] 7 init ≡ some (init, send 7 name_taken ∷ [])
unfolding handle_register init str_eq
nameless_refused = refl

register_new_example :
    (r' : Registry) × (handle_register (99 ∷ []) 8 with_bob ≡ some (r', send 8 register_ack ∷ []))
    × Registered (99 ∷ []) 8 with_bob r'
unfolding find_client_by_name str_eq
register_new_example =
    register_new (99 ∷ []) 8 with_bob with_bob-IsValid (omega arith) refl (omega arith)
      (omega arith) refl

register_taken_run : handle_register (98 ∷ []) 8 with_bob ≡ some (with_bob, send 8 name_taken ∷ [])
unfolding find_client_by_name str_eq
register_taken_run =
    register_taken (98 ∷ []) 8 with_bob with_bob-IsValid (omega arith) refl bob (omega arith) refl

-- Twenty clients, named by their number.
crowd : ℕ → List Client
crowd zero = []
crowd (suc n) = record { name = (n + 1) ∷ []; socket = n + 4; responsive = true } ∷ crowd n

abbrev full : Registry
full = record { clients = crowd max_clients; client_count = pos max_clients }

crowd_absent : (n k : ℕ) → n < k → find_client_by_name (k ∷ []) (crowd n) ≡ none
unfolding crowd find_client_by_name str_eq
crowd_absent zero k h = refl
crowd_absent (suc n) k h = ground (arith, crowd_absent n k)

crowd-WellFormed : (n : ℕ) → WellFormed (crowd n)
unfolding crowd
crowd-WellFormed zero = tt
crowd-WellFormed (suc n) =
    (ground arith, λ h. crowd_absent n (n + 1) (omega arith), crowd-WellFormed n)

full-IsValid : IsValid full
unfolding crowd
full-IsValid = record { len = refl; named = crowd-WellFormed 20; count = refl }

full_registry : handle_register (99 ∷ []) 9 full ≡ some (full, [])
unfolding crowd
full_registry = register_full (99 ∷ []) 9 full full-IsValid refl

unregister_known_example :
    (r' : Registry) × (handle_unregister (98 ∷ []) with_bob ≡ (r', close 7 ∷ []))
    × Unregistered (98 ∷ []) with_bob r'
unfolding find_client_by_name str_eq
unregister_known_example = unregister_known (98 ∷ []) with_bob with_bob-IsValid bob refl refl

monitor_round_lem_example :
    (monitor_round with_bob
      ≡ (counted (map checked with_bob.clients), all_effects with_bob.clients))
    × IsValid (counted (map checked with_bob.clients))
monitor_round_lem_example = monitor_round_lem with_bob with_bob-IsValid

get_random_client_live_example :
    (c : Client) × (get_random_client 13 with_bob ≡ some (some c))
    × (is_free c ≡ false)
    × ((j : ℕ) × (j < max_clients) × (get_or with_bob.clients j no_client ≡ c))
get_random_client_live_example = get_random_client_live 13 with_bob with_bob-IsValid (omega arith)
