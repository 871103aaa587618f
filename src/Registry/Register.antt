-- ===== src/Registry/Register.antt =====
-- `handle_register` of lab10/GeislerWojciech/cw10/zad1/server.c.
use mathlib.Core.Path.{subst}
use agh_operating_systems.Base.{
  ℕ, suc, ◌+◌, ◌≤◌, ◌<◌, ◌≡◌, refl, ap, ◌∙◌, sym, Bool, true, false, Option, none, some, List, [],
  ◌∷◌, length, set, if◌then◌else◌, arith,
}
use agh_operating_systems.Base.Int.{pos, ◌+ℤ◌}
use agh_operating_systems.Base.Text.{CString, str_eq, str_eq_sound, strncpy, take_of_le}
use agh_operating_systems.Registry.{
  Client, Registry, is_free, max_clients, max_name, scan, duplicate, available, handle_register,
  find_client_by_name, send, register_ack, name_taken,
}
use agh_operating_systems.Registry.Names.{
  is_empty, WellFormed, live_count, IsValid, fill, length-fill, live_count-fill, find-fill,
  fill-WellFormed,
}

first_free : List Client → ℕ → Option ℕ
first_free [] i = none
first_free (c ∷ cs) i = if is_free c then some i else first_free cs (i + 1)

scan_after :
    (name : CString) (cs : List Client) (i k : ℕ)
    → is_empty name ≡ false
    → find_client_by_name name cs ≡ none
    → scan name cs i (some k) ≡ available (some k)
unfolding scan find_client_by_name
scan_after name [] i k e h = refl
scan_after name (c ∷ cs) i k e h = ground (arith, scan_after name cs (i + 1) k e)

scan_new :
    (name : CString) (cs : List Client) (i : ℕ)
    → is_empty name ≡ false
    → find_client_by_name name cs ≡ none
    → scan name cs i none ≡ available (first_free cs i)
unfolding scan find_client_by_name first_free
scan_new name [] i e h = refl
scan_new name (c ∷ cs) i e h =
    ground (arith, scan_new name cs (i + 1) e, scan_after name cs (i + 1) i e)

scan_taken :
    (name : CString) (cs : List Client) (i : ℕ) (idx : Option ℕ) (c : Client)
    → WellFormed cs
    → is_empty name ≡ false
    → find_client_by_name name cs ≡ some c
    → scan name cs i idx ≡ duplicate
unfolding scan find_client_by_name
scan_taken name [] i idx c w e h = cc
scan_taken name (d ∷ cs) i idx c w e h = ground (
  arith,
  scan_taken name cs (i + 1) idx c w.2 e,
  scan_taken name cs (i + 1) (some i) c w.2 e,
  str_eq_sound d.name name,
)

-- The index that the scan finds is that of the slot that `fill` gives away.
given_slot :
    (new : Client) (cs : List Client) (i : ℕ)
    → live_count cs < length cs
    → (j : ℕ) × (first_free cs i ≡ some (i + j)) × (set cs j new ≡ fill new cs)
unfolding first_free
given_slot new [] i h = absurd (omega arith)
given_slot new (c ∷ cs) i h = by_slot (is_free c) refl (λ l. given_slot new cs (i + 1) l)
  where
    by_slot :
        (b : Bool)
        → is_free c ≡ b
        → (live_count cs < length cs
            → (j : ℕ) × (first_free cs (i + 1) ≡ some (i + 1 + j)) × (set cs j new ≡ fill new cs))
        → (j : ℕ) × (first_free (c ∷ cs) i ≡ some (i + j))
          × (set (c ∷ cs) j new ≡ fill new (c ∷ cs))
    by_slot true e rest = (0, ground arith, ground arith)
    by_slot false e rest =
        let (j, f, g) = rest (ground arith) in (suc j, ground arith, ground arith)

abbrev pub client_of : CString → ℕ → Client
client_of name socket = record { name = strncpy name max_name; socket = socket; responsive = true }

-- What a successful registration makes of the registry `r`.
pub record Registered (name : CString) (socket : ℕ) (r r' : Registry) : Type 0 where
  pub valid : IsValid r'
  pub found :
      (other : CString)
      → is_empty other ≡ false
      → find_client_by_name other r'.clients ≡ (
          if str_eq name other
          then some (client_of name socket)
          else find_client_by_name other r.clients)

module _ (name : CString) (socket : ℕ) (r : Registry) (v : IsValid r)
    (short : length name ≤ max_name) (nonempty : is_empty name ≡ false) where
  open v use {len, named, count}

  same : strncpy name max_name ≡ name
  same = take_of_le max_name name short

  fill-Registered :
      (cs : List Client)
      → 0 < socket
      → live_count r.clients < max_clients
      → find_client_by_name name r.clients ≡ none
      → cs ≡ fill (client_of name socket) r.clients
      → Registered name socket r (record { clients = cs; client_count = r.client_count +ℤ pos 1 })
  unfolding ◌+ℤ◌
  fill-Registered cs s h f e = record {
    valid = record {
      len = ap length e ∙ length-fill new r.clients ∙ len;
      named =
          subst WellFormed (sym e) (fill-WellFormed new r.clients named live filled absent room);
      count =
          ap (λ t. t +ℤ pos 1) count
          ∙ ground arith
          ∙ ap pos (sym (ap live_count e ∙ live_count-fill new r.clients live room));
    };
    found = λ other o.
        ap (find_client_by_name other) e
        ∙ find-fill new r.clients other named room o absent
        ∙ ap (λ t. if str_eq t other then some new else find_client_by_name other r.clients) same;
  }
    where
      new : Client
      new = client_of name socket

      live : is_free new ≡ false
      live = ground arith

      filled : is_empty new.name ≡ false
      filled = ap is_empty same ∙ nonempty

      absent : find_client_by_name new.name r.clients ≡ none
      absent = ap (λ t. find_client_by_name t r.clients) same ∙ f

      room : live_count r.clients < length r.clients
      room = omega (arith, len)

  -- A new name is registered: the client is acknowledged, is found under its name from then on, and
  -- nobody else's entry changes. The name is not empty and fits the array, and there is room.
  pub register_new :
      0 < socket
      → live_count r.clients < max_clients
      → find_client_by_name name r.clients ≡ none
      → (r' : Registry) × (handle_register name socket r ≡ some (r', send socket register_ack ∷ []))
        × Registered name socket r r'
  unfolding handle_register
  register_new s h f =
      let (j, free, filled) = given_slot (client_of name socket) r.clients 0 (omega (arith, len)) in
      (
        _,
        ground (arith, scan_new name r.clients 0 nonempty f, count),
        fill-Registered _ s h f filled,
      )

  -- A name that a client has is refused with `NAME_TAKEN`, and the registry stays as it was.
  pub register_taken :
      (c : Client)
      → live_count r.clients < max_clients
      → find_client_by_name name r.clients ≡ some c
      → handle_register name socket r ≡ some (r, send socket name_taken ∷ [])
  unfolding handle_register
  register_taken c h f = ground (arith, scan_taken name r.clients 0 none c named nonempty f, count)

-- A full registry refuses every registration: it sends no answer at all and stays as it was.
pub register_full :
    (name : CString) (socket : ℕ) (r : Registry)
    → IsValid r
    → live_count r.clients ≡ max_clients
    → handle_register name socket r ≡ some (r, [])
unfolding handle_register
register_full name socket r v h = ground (arith, v.count)
