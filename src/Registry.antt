-- ===== src/Registry.antt =====
-- The client registry of the server lab10/GeislerWojciech/cw10/zad1/server.c: the array `clients`
-- with its counter, and the handlers of messages and of the monitor thread that change it. What they
-- send and close is a list of effects.
pub mod Names
pub mod Register
pub mod Unregister
pub mod Monitor
pub mod Random
pub mod Silence
mod Tests
use agh_operating_systems.Base.{
  ℕ, zero, suc, ◌+◌, ◌%◌, Bool, true, false, ◌&&◌, Option, none, some, List, [], ◌∷◌, ◌++◌, get_or,
  set, replicate, leb, ltb, ◌==◌, if◌then◌else◌,
}
use agh_operating_systems.Base.Int.{ℤ, pos, ◌+ℤ◌, ◌-ℤ◌, ltb_ℤ}
use agh_operating_systems.Base.Text.{CString, str_eq, strncpy}

abbrev pub max_clients : ℕ
max_clients = 20

abbrev pub max_name : ℕ
max_name = 23

-- `msg_type`, as far as the server sends it.
pub data Reply : Type 0 where
  register_ack name_taken arith_request ping : Reply

-- What the server does to its sockets.
pub data Effect : Type 0 where
  send : (socket : ℕ) → Reply → Effect
  close : (socket : ℕ) → Effect

-- `client`. A socket is a descriptor; 0 marks a free slot.
pub record Client : Type 0 where
  pub name : CString
  pub socket : ℕ
  pub responsive : Bool

-- `clients` and `client_count`.
pub record Registry : Type 0 where
  pub clients : List Client
  pub client_count : ℤ

abbrev pub no_client : Client
no_client = record { name = []; socket = 0; responsive = false }

unfoldable pub init : Registry
init = record { clients = replicate max_clients no_client; client_count = pos 0 }

abbrev pub is_free : Client → Bool
is_free c = leb c.socket 0

-- The result of the loop of `handle_register`: `available_idx`, unless the name is found.
pub data Scan : Type 0 where
  duplicate : Scan
  available : (idx : Option ℕ) → Scan

abbrev pub is_none : Option ℕ → Bool
is_none none = true
is_none (some i) = false

pub scan : CString → List Client → ℕ → Option ℕ → Scan
scan name [] i idx = available idx
scan name (c ∷ cs) i idx = elim (is_none idx && is_free c) [
  | true ↦ scan name cs (i + 1) (some i)
  | false ↦ elim (str_eq c.name name) [ true ↦ duplicate | false ↦ scan name cs (i + 1) idx ]
]

-- What follows the loop. `none` is the write to `clients[-1]`.
pub registered : CString → ℕ → Registry → Scan → Option (Registry × List Effect)
registered name socket r duplicate = some (r, send socket name_taken ∷ [])
registered name socket r (available none) = none
registered name socket r (available (some i)) = some (
  record {
    clients =
        set r.clients i
          (record { name = strncpy name max_name; socket = socket; responsive = true });
    client_count = r.client_count +ℤ pos 1;
  },
  send socket register_ack ∷ [],
)

pub handle_register : CString → ℕ → Registry → Option (Registry × List Effect)
unfolding scan registered
handle_register name socket r =
    if ltb_ℤ r.client_count (pos max_clients)
    then registered name socket r (scan name r.clients 0 none)
    else some (r, [])

-- The loop of `handle_unregister`: the slot with the name is emptied and its socket closed.
-- `none` if no slot has the name.
pub empty_slot : CString → List Client → Option (List Client × ℕ)
empty_slot name [] = none
empty_slot name (c ∷ cs) = elim (str_eq c.name name) [
  | true ↦ some (record { name = []; socket = 0; responsive = c.responsive } ∷ cs, c.socket)
  | false ↦ elim (empty_slot name cs) [ none ↦ none | some (ds, socket) ↦ some (c ∷ ds, socket) ]
]

pub handle_unregister : CString → Registry → Registry × List Effect
unfolding empty_slot
handle_unregister name r = elim (empty_slot name r.clients) [
  | none ↦ (r, [])
  | some (cs, socket) ↦
      (record { clients = cs; client_count = r.client_count -ℤ pos 1 }, close socket ∷ [])
]

pub mark_responsive : ℕ → List Client → List Client
mark_responsive socket [] = []
mark_responsive socket (c ∷ cs) = elim (c.socket == socket) [
  | true ↦ record c { responsive = true } ∷ cs
  | false ↦ c ∷ mark_responsive socket cs
]

pub handle_ping : ℕ → Registry → Registry
unfolding mark_responsive
handle_ping socket r = record r { clients = mark_responsive socket r.clients }

unfoldable pub find_client_by_name : CString → List Client → Option Client
find_client_by_name name [] = none
find_client_by_name name (c ∷ cs) = elim (str_eq c.name name) [
  | true ↦ some c
  | false ↦ find_client_by_name name cs
]

pub find_client_by_socket : ℕ → List Client → Option Client
find_client_by_socket socket [] = none
find_client_by_socket socket (c ∷ cs) = elim (c.socket == socket) [
  | true ↦ some c
  | false ↦ find_client_by_socket socket cs
]

-- `read_message` on a closed connection.
pub handle_closed : ℕ → Registry → Registry × List Effect
unfolding find_client_by_socket handle_unregister
handle_closed socket r = elim (find_client_by_socket socket r.clients) [
  | none ↦ (r, close socket ∷ [])
  | some c ↦ handle_unregister c.name r
]

-- `process_message`. A result is only printed; so is a message of another type.
pub process_message : ℕ → CString → ℕ → Registry → Option (Registry × List Effect)
unfolding handle_register handle_unregister handle_ping
process_message msg_type name socket r =
    if msg_type == 0x11
    then handle_register name socket r
    else if msg_type == 0x55
    then some (r, [])
    else if msg_type == 0x66
    then some (handle_unregister name r)
    else if msg_type == 0x77
    then some (handle_ping socket r, [])
    else some (r, [])

-- One round of `monitor` on the slots from `i` on, `n` of them left. The slots are read again at
-- every step, since `handle_unregister` may have changed them.
pub monitor_slot : ℕ → Registry → Registry × List Effect
unfolding handle_unregister
monitor_slot i r =
    let c = get_or r.clients i no_client in
    if is_free c
    then (r, [])
    else if c.responsive
    then (
      record r { clients = set r.clients i (record c { responsive = false }) },
      send c.socket ping ∷ [],
    )
    else handle_unregister c.name r

pub monitor_from : ℕ → ℕ → Registry → Registry × List Effect
unfolding monitor_slot
monitor_from zero i r = (r, [])
monitor_from (suc n) i r =
    let (r', sent) = monitor_slot i r in
    let (r'', more) = monitor_from n (i + 1) r' in (r'', sent ++ more)

pub monitor_round : Registry → Registry × List Effect
unfolding monitor_from
monitor_round r = monitor_from max_clients 0 r

-- The loop of `get_random_client` from slot `i` on. On fuel; `none` is a search that goes on.
pub next_client : ℕ → List Client → ℕ → Option Client
next_client zero cs i = none
next_client (suc fuel) cs i =
    let c = get_or cs i no_client in
    elim (is_free c) [ true ↦ next_client fuel cs ((i + 1) % max_clients) | false ↦ some c ]

-- `get_random_client`, with the value of `rand()`. The outer `none` is a search that goes on, the
-- inner one the `NULL` of an empty registry.
pub get_random_client : ℕ → Registry → Option (Option Client)
unfolding next_client
get_random_client rand r =
    if ltb_ℤ r.client_count (pos 1)
    then some none
    else elim (next_client max_clients r.clients (rand % max_clients)) [
      | none ↦ none
      | some c ↦ some (some c)
    ]
