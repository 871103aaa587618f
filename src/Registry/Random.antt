-- ===== src/Registry/Random.antt =====
-- `get_random_client` of lab10/GeislerWojciech/cw10/zad1/server.c.
use agh_operating_systems.Base.{
  ℕ, zero, suc, ◌+◌, ◌-◌, ◌%◌, ◌<◌, ◌≡◌, refl, ap, ◌∙◌, sym, Bool, true, false, none, some, List,
  [], ◌∷◌, length, arith, get_or,
}
use agh_operating_systems.Registry.{
  Client, Registry, is_free, max_clients, no_client, next_client, get_random_client,
}
use agh_operating_systems.Registry.Names.{IsValid, live_count}

live_slot :
    (cs : List Client)
    → 0 < live_count cs
    → (j : ℕ) × (j < length cs) × (is_free (get_or cs j no_client) ≡ false)
live_slot [] h = absurd (omega arith)
live_slot (c ∷ cs) h = by_slot (is_free c) refl (live_slot cs)
  where
    by_slot :
        (b : Bool)
        → is_free c ≡ b
        → (0 < live_count cs
            → (j : ℕ) × (j < length cs) × (is_free (get_or cs j no_client) ≡ false))
        → (j : ℕ) × (j < length (c ∷ cs)) × (is_free (get_or (c ∷ cs) j no_client) ≡ false)
    by_slot false e rest = (0, omega arith, e)
    by_slot true e rest = let (j, l, f) = rest (ground arith) in (suc j, omega arith, f)

-- With a client `d` steps further round the array, the search ends in `d + 1` steps at a client.
next_client_found :
    (d fuel i : ℕ) (cs : List Client)
    → d < fuel
    → i < max_clients
    → is_free (get_or cs ((i + d) % max_clients) no_client) ≡ false
    → (c : Client) × (next_client fuel cs i ≡ some c)
      × (is_free c ≡ false)
      × ((j : ℕ) × (j < max_clients) × (get_or cs j no_client ≡ c))
unfolding next_client
next_client_found d zero i cs h l e = absurd (omega arith)
next_client_found d (suc fuel) i cs h l e =
    by_slot d h e (is_free (get_or cs i no_client)) refl
      (λ d' h' e'. next_client_found d' fuel ((i + 1) % max_clients) cs h' (omega arith) e')
  where
    here : i ≡ (i + 0) % max_clients
    here = omega arith

    by_slot :
        (d : ℕ)
        → d < suc fuel
        → is_free (get_or cs ((i + d) % max_clients) no_client) ≡ false
        → (b : Bool) → is_free (get_or cs i no_client) ≡ b
        → ((d' : ℕ)
            → d' < fuel
            → is_free (get_or cs (((i + 1) % max_clients + d') % max_clients) no_client) ≡ false
            → (c : Client) × (next_client fuel cs ((i + 1) % max_clients) ≡ some c)
              × (is_free c ≡ false)
              × ((j : ℕ) × (j < max_clients) × (get_or cs j no_client ≡ c)))
        → (c : Client) × (next_client (suc fuel) cs i ≡ some c)
          × (is_free c ≡ false)
          × ((j : ℕ) × (j < max_clients) × (get_or cs j no_client ≡ c))
    by_slot d h e false f rest = (get_or cs i no_client, rw (f, next_client), f, (i, l, refl))
    by_slot zero h e true f rest = cc (sym f ∙ ap (λ t. is_free (get_or cs t no_client)) here ∙ e)
    by_slot (suc d) h e true f rest =
        let (c, n, g, w) =
          rest d (omega arith) (ap (λ t. is_free (get_or cs t no_client)) (omega arith) ∙ e) in
        (c, rw (f, next_client) n, g, w)

-- With at least one client registered, the request goes to a registered client whatever `rand()`
-- gives: the search ends, within one round of the array.
pub get_random_client_live :
    (rand : ℕ) (r : Registry)
    → IsValid r
    → 0 < live_count r.clients
    → (c : Client) × (get_random_client rand r ≡ some (some c))
      × (is_free c ≡ false)
      × ((j : ℕ) × (j < max_clients) × (get_or r.clients j no_client ≡ c))
unfolding get_random_client
get_random_client_live rand r v h =
    let (j, l, f) = live_slot r.clients h in
    let (c, n, g, w) =
      next_client_found (distance j) max_clients (rand % max_clients) r.clients (omega arith)
        (omega arith)
        (ap (λ t. is_free (get_or r.clients t no_client)) (round j (omega (arith, v.len))) ∙ f) in
    (c, rw (v.count, n) (ground arith), g, w)
  where
    distance : ℕ → ℕ
    distance j = (j + max_clients - rand % max_clients) % max_clients

    round : (j : ℕ) → j < max_clients → (rand % max_clients + distance j) % max_clients ≡ j
    round j l = omega arith

-- With no client registered the result is `NULL`.
pub random_of_empty :
    (rand : ℕ) (r : Registry)
    → IsValid r
    → live_count r.clients ≡ 0
    → get_random_client rand r ≡ some none
unfolding get_random_client
random_of_empty rand r v h = ground (arith, v.count)
