-- ===== src/Registry/Silence.antt =====
-- What becomes of a client of lab10/GeislerWojciech/cw10/zad1/server.c that answers no ping, while the
-- server goes on with its other clients.
use agh_operating_systems.Base.{ℕ, ◌<◌, ◌≤◌, ◌≡◌, ◌≢◌, false, none, some, [], ◌∷◌, length}
use agh_operating_systems.Base.Text.{CString, str_eq}
use agh_operating_systems.Registry.{
  Client, Registry, max_clients, max_name, handle_register, handle_unregister, handle_ping,
  find_client_by_name, send, register_ack,
}
use agh_operating_systems.Registry.Names.{is_empty, live_count, IsValid}

-- The client with the name, if there is one, has not answered since the last round.
pub record IsSilent (name : CString) (r : Registry) : Type 0 where
  pub valid : IsValid r
  pub unmarked : (c : Client) → find_client_by_name name r.clients ≡ some c → c.responsive ≡ false

-- A message that is not of the client with this name: the answer of another client to a ping, a new
-- client with another name, or a client that is taken off.
pub data Other (name : CString) (r : Registry) : Registry → Type 0 where
  answered :
      (socket : ℕ)
      → ((c : Client) → find_client_by_name name r.clients ≡ some c → c.socket ≢ socket)
      → Other name r (handle_ping socket r)
  joined :
      (other : CString) (socket : ℕ) {r' : Registry}
      → str_eq other name ≡ false
      → length other ≤ max_name
      → is_empty other ≡ false
      → 0 < socket
      → live_count r.clients < max_clients
      → find_client_by_name other r.clients ≡ none
      → handle_register other socket r ≡ some (r', send socket register_ack ∷ [])
      → Other name r r'
  left :
      (other : CString) (c : Client)
      → is_empty other ≡ false
      → find_client_by_name other r.clients ≡ some c
      → Other name r (handle_unregister other r).0

pub data Others (name : CString) (r : Registry) : Registry → Type 0 where
  nothing : Others name r r
  message : {s t : Registry} → Others name r s → Other name s t → Others name r t
