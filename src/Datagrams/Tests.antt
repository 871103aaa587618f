-- ===== src/Datagrams/Tests.antt =====
-- The theorems on lab10/GeislerWojciech/cw10/zad2/server.c at three slots.
use agh_operating_systems.Base.{
  ◌≡◌, refl, true, false, none, some, [], ◌∷◌, arith, if◌then◌else◌, inl, inr,
}
use agh_operating_systems.Base.Int.{pos, ◌+ℤ◌, ◌-ℤ◌}
use agh_operating_systems.Base.Text.{CString, str_eq}
use agh_operating_systems.Datagrams.{
  Client, Registry, no_client, register_ack, name_taken, ping, handle_register, handle_unregister,
  handle_ping, ping_msg, process_message, monitor_from, find_client_by_name, get_random_client,
}
use agh_operating_systems.Datagrams.Names.{is_empty}
use agh_operating_systems.Datagrams.Handlers.{
  client_of, handle_register_new, handle_unregister_known, handle_ping_known, handle_ping_unknown,
}

abbrev anna : Client
anna = record { name = 97 ∷ []; addr = 5; responsive = true }

abbrev bert : Client
bert = record { name = 98 ∷ []; addr = 6; responsive = false }

abbrev r : Registry
r = record { clients = anna ∷ no_client ∷ bert ∷ []; client_count = pos 2 }

taken_name : handle_register (98 ∷ []) 9 r ≡ some (r, record { addr = 9; reply = name_taken } ∷ [])
unfolding handle_register str_eq
taken_name = refl

-- The round pings the one that answered and removes the one that did not.
round : monitor_from 3 0 r ≡ (
  record {
    clients = record anna { responsive = false } ∷ no_client ∷ record bert { name = [] } ∷ [];
    client_count = pos 1;
  },
  record { addr = 5; reply = ping } ∷ [],
)
unfolding monitor_from str_eq ◌-ℤ◌
round = refl

chosen : get_random_client 21 r ≡ some (some bert)
unfolding get_random_client
chosen = refl

crash : process_message ping_msg (99 ∷ []) 9 r ≡ none
unfolding process_message str_eq
crash = refl

handle_register_new_run :
    (r' : Registry) × (handle_register (99 ∷ []) 9 r
      ≡ some (r', record { addr = 9; reply = register_ack } ∷ []))
    × (r'.client_count ≡ pos 2 +ℤ pos 1)
    × ((other : CString)
        → is_empty other ≡ false
        → find_client_by_name other r'.clients ≡ (
            if str_eq (99 ∷ []) other
            then some (client_of (99 ∷ []) 9)
            else find_client_by_name other r.clients))
unfolding find_client_by_name str_eq
handle_register_new_run =
    handle_register_new (99 ∷ []) 9 r refl (omega arith) refl (inr (inl refl)) refl

handle_unregister_known_run :
    let r' = handle_unregister (98 ∷ []) r in
    (r'.client_count ≡ pos 2 -ℤ pos 1)
    × ((other : CString)
        → is_empty other ≡ false
        → find_client_by_name other r'.clients
          ≡ (if str_eq (98 ∷ []) other then none else find_client_by_name other r.clients))
unfolding find_client_by_name str_eq
handle_unregister_known_run =
    handle_unregister_known (98 ∷ []) r bert refl (inr refl, (inl refl, (inr refl, tt))) refl

handle_ping_known_example :
    (r' : Registry) × (handle_ping (98 ∷ []) r ≡ some r')
    × (r'.client_count ≡ pos 2)
    × ((other : CString)
        → find_client_by_name other r'.clients ≡ (
            if str_eq (98 ∷ []) other
            then some (record bert { responsive = true })
            else find_client_by_name other r.clients))
unfolding find_client_by_name str_eq
handle_ping_known_example = handle_ping_known (98 ∷ []) r bert refl

handle_ping_unknown_run : handle_ping (99 ∷ []) r ≡ none
unfolding find_client_by_name str_eq
handle_ping_unknown_run = handle_ping_unknown (99 ∷ []) r refl
