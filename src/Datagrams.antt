-- ===== src/Datagrams.antt =====
-- The server on datagrams lab10/GeislerWojciech/cw10/zad2/server.c: its registry, where a free slot is
-- one without a name, and the handlers that change it. An address is a number; what the server sends is
-- a list of messages. The splitting of its commands is that of Words.
pub mod Names
pub mod Handlers
mod Tests
use agh_operating_systems.Base.{
  ℕ, zero, suc, ◌+◌, ◌%◌, Bool, true, false, ◌&&◌, Option, none, some, List, [], ◌∷◌, ◌++◌, get_or,
  set, ◌==◌, if◌then◌else◌,
}
use agh_operating_systems.Base.Int.{ℤ, pos, ◌+ℤ◌, ◌-ℤ◌, ltb_ℤ}
use agh_operating_systems.Base.Text.{CString, str_eq, strncpy}

abbrev pub max_clients : ℕ
max_clients = 20

abbrev pub max_name : ℕ
max_name = 23

pub data MsgType : Type 0 where
  register_msg result_msg unregister_msg ping_msg other_msg : MsgType

pub data Reply : Type 0 where
  register_ack name_taken ping : Reply

-- `send_message` to an address.
pub record Sent : Type 0 where
  pub addr : ℕ
  pub reply : Reply

pub record Client : Type 0 where
  pub name : CString
  pub addr : ℕ
  pub responsive : Bool

pub record Registry : Type 0 where
  pub clients : List Client
  pub client_count : ℤ

abbrev pub no_client : Client
no_client = record { name = []; addr = 0; responsive = false }

-- `name[0] == '\0'`
abbrev pub is_free : Client → Bool
is_free c = elim c.name [ [] ↦ true | _ ∷ _ ↦ false ]

pub data Scan : Type 0 where
  duplicate : Scan
  available : (idx : Option ℕ) → Scan

abbrev pub is_none : Option ℕ → Bool
is_none none = true
is_none (some i) = false

-- The loop of `handle_register`.
pub scan : CString → List Client → ℕ → Option ℕ → Scan
scan name [] i idx = available idx
scan name (c ∷ cs) i idx = elim (is_none idx && is_free c) [
  | true ↦ scan name cs (i + 1) (some i)
  | false ↦ elim (str_eq c.name name) [ true ↦ duplicate | false ↦ scan name cs (i + 1) idx ]
]

-- What follows it. `none` is the write to `clients[-1]`.
pub registered : CString → ℕ → Registry → Scan → Option (Registry × List Sent)
registered name sender r duplicate = some (r, record { addr = sender; reply = name_taken } ∷ [])
registered name sender r (available none) = none
registered name sender r (available (some i)) = some (
  record {
    clients =
        set r.clients i (record { name = strncpy name max_name; addr = sender; responsive = true });
    client_count = r.client_count +ℤ pos 1;
  },
  record { addr = sender; reply = register_ack } ∷ [],
)

pub handle_register : CString → ℕ → Registry → Option (Registry × List Sent)
unfolding scan registered
handle_register name sender r =
    if ltb_ℤ r.client_count (pos max_clients)
    then registered name sender r (scan name r.clients 0 none)
    else some (r, [])

-- The loop of `handle_unregister`; `none` if no slot has the name.
pub empty_slot : CString → List Client → Option (List Client)
empty_slot name [] = none
empty_slot name (c ∷ cs) = elim (str_eq c.name name) [
  | true ↦ some (record c { name = [] } ∷ cs)
  | false ↦ elim (empty_slot name cs) [ none ↦ none | some ds ↦ some (c ∷ ds) ]
]

pub handle_unregister : CString → Registry → Registry
unfolding empty_slot
handle_unregister name r = elim (empty_slot name r.clients) [
  | none ↦ r
  | some cs ↦ record { clients = cs; client_count = r.client_count -ℤ pos 1 }
]

pub find_client_by_name : CString → List Client → Option Client
find_client_by_name name [] = none
find_client_by_name name (c ∷ cs) = elim (str_eq c.name name) [
  | true ↦ some c
  | false ↦ find_client_by_name name cs
]

-- `handle_ping` writes through the result of `find_client_by_name`; `none` is the write through `NULL`.
pub mark_responsive : CString → List Client → Option (List Client)
mark_responsive name [] = none
mark_responsive name (c ∷ cs) = elim (str_eq c.name name) [
  | true ↦ some (record c { responsive = true } ∷ cs)
  | false ↦ elim (mark_responsive name cs) [ none ↦ none | some ds ↦ some (c ∷ ds) ]
]

pub handle_ping : CString → Registry → Option Registry
unfolding mark_responsive
handle_ping name r = elim (mark_responsive name r.clients) [
  | none ↦ none
  | some cs ↦ some (record r { clients = cs })
]

-- `process_message`; a result is only printed.
pub process_message : MsgType → CString → ℕ → Registry → Option (Registry × List Sent)
unfolding handle_register handle_unregister handle_ping
process_message register_msg name sender r = handle_register name sender r
process_message result_msg name sender r = some (r, [])
process_message unregister_msg name sender r = some (handle_unregister name r, [])
process_message ping_msg name sender r = elim (handle_ping name r) [
  | none ↦ none
  | some r' ↦ some (r', [])
]
process_message other_msg name sender r = some (r, [])

-- A slot in a round of `monitor`.
pub monitor_slot : ℕ → Registry → Registry × List Sent
unfolding handle_unregister
monitor_slot i r =
    let c = get_or r.clients i no_client in
    if is_free c
    then (r, [])
    else if c.responsive
    then (
      record r { clients = set r.clients i (record c { responsive = false }) },
      record { addr = c.addr; reply = ping } ∷ [],
    )
    else (handle_unregister c.name r, [])

pub monitor_from : ℕ → ℕ → Registry → Registry × List Sent
unfolding monitor_slot
monitor_from zero i r = (r, [])
monitor_from (suc n) i r =
    let (r', sent) = monitor_slot i r in
    let (r'', rest) = monitor_from n (i + 1) r' in (r'', sent ++ rest)

-- The loop of `get_random_client` from slot `i` on. On fuel; `none` is a search that goes on.
pub next_client : ℕ → List Client → ℕ → Option Client
next_client zero cs i = none
next_client (suc fuel) cs i =
    let c = get_or cs i no_client in
    elim (is_free c) [ true ↦ next_client fuel cs ((i + 1) % max_clients) | false ↦ some c ]

pub get_random_client : ℕ → Registry → Option (Option Client)
unfolding next_client
get_random_client rand r =
    if ltb_ℤ r.client_count (pos 1)
    then some none
    else elim (next_client max_clients r.clients (rand % max_clients)) [
      | none ↦ none
      | some c ↦ some (some c)
    ]
