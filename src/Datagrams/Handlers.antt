-- ===== src/Datagrams/Handlers.antt =====
-- What the handlers of lab10/GeislerWojciech/cw10/zad2/server.c do to the registry, seen through
-- `find_client_by_name`.
use agh_operating_systems.Base.{
  ℕ, ◌≡◌, ◌≤◌, refl, true, false, none, some, [], ◌∷◌, length, arith, if◌then◌else◌,
}
use agh_operating_systems.Base.Int.{pos, ◌+ℤ◌, ◌-ℤ◌, ltb_ℤ}
use agh_operating_systems.Base.Text.{CString, str_eq, strncpy, take_of_le}
use agh_operating_systems.Datagrams.{
  Client, Registry, max_clients, max_name, register_ack, registered, handle_register,
  handle_unregister, handle_ping, find_client_by_name,
}
use agh_operating_systems.Datagrams.Names.{
  is_empty, Distinct, HasFree, mark_responsive-found, mark_responsive-unknown, empty_slot-found,
  scan-found,
}

abbrev pub client_of : CString → ℕ → Client
client_of name sender = record { name = strncpy name max_name; addr = sender; responsive = true }

-- A datagram that registers a new name, which is not empty and fits the array, while there is room, is
-- acknowledged to its sender; the client is found under its name from then on, and everybody else
-- is found as before.
pub handle_register_new :
    (name : CString) (sender : ℕ) (r : Registry)
    → is_empty name ≡ false
    → length name ≤ max_name
    → find_client_by_name name r.clients ≡ none
    → HasFree r.clients
    → ltb_ℤ r.client_count (pos max_clients) ≡ true
    → (r' : Registry) × (handle_register name sender r
        ≡ some (r', record { addr = sender; reply = register_ack } ∷ []))
      × (r'.client_count ≡ r.client_count +ℤ pos 1)
      × ((other : CString)
          → is_empty other ≡ false
          → find_client_by_name other r'.clients ≡ (
              if str_eq name other
              then some (client_of name sender)
              else find_client_by_name other r.clients))
unfolding handle_register registered
handle_register_new name sender r e short h f room =
    let (j, scanned, found) =
      scan-found name r.clients (client_of name sender) 0 (take_of_le max_name name short) e h f in
    (_, ground (arith, scanned, room), refl, found)

-- Unregistering a client takes its name out of the registry, where names are distinct, and nobody
-- else's; nothing is sent.
pub handle_unregister_known :
    (name : CString) (r : Registry) (c : Client)
    → is_empty name ≡ false
    → Distinct r.clients
    → find_client_by_name name r.clients ≡ some c
    → let r' = handle_unregister name r in
      (r'.client_count ≡ r.client_count -ℤ pos 1)
      × ((other : CString)
          → is_empty other ≡ false
          → find_client_by_name other r'.clients
            ≡ (if str_eq name other then none else find_client_by_name other r.clients))
unfolding handle_unregister
handle_unregister_known name r c e v h =
    let (ds, emptied, found) = empty_slot-found name r.clients c e v h in
    (ground arith, λ other o. ground (arith, found other o))

-- A PING from a client marks it as responsive and changes nobody else.
pub handle_ping_known :
    (name : CString) (r : Registry) (c : Client)
    → find_client_by_name name r.clients ≡ some c
    → (r' : Registry) × (handle_ping name r ≡ some r')
      × (r'.client_count ≡ r.client_count)
      × ((other : CString)
          → find_client_by_name other r'.clients ≡ (
              if str_eq name other
              then some (record c { responsive = true })
              else find_client_by_name other r.clients))
unfolding handle_ping
handle_ping_known name r c h =
    let (ds, marked, found) = mark_responsive-found name r.clients c h in
    (record r { clients = ds }, ground arith, refl, found)

-- A PING under a name that nobody has is a write through `NULL`.
pub handle_ping_unknown :
    (name : CString) (r : Registry)
    → find_client_by_name name r.clients ≡ none
    → handle_ping name r ≡ none
unfolding handle_ping
handle_ping_unknown name r h = ground (arith, mark_responsive-unknown name r.clients h)
