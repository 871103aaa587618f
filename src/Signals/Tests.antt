-- ===== src/Signals/Tests.antt =====
-- Three children of lab4/GeislerWojciech/cw04/zad2/main.c, two requests wanted.
use agh_operating_systems.Base.{ℕ, ◌≡◌, refl, some, none, List, [], ◌∷◌, arith, true, false, get_or}
use agh_operating_systems.Base.Int.{pos}
use agh_operating_systems.Signals.{Parent, get_child_id, run_requests, sigint_kills}
use agh_operating_systems.Signals.Permission.{
  IsValid, contains, start, requests_served, stranger_faults, AllChildren,
}

abbrev family : List ℕ
family = 101 ∷ 102 ∷ 103 ∷ []

-- The first request waits, the second frees both, the third is answered at once.
run_test :
    run_requests 2 (102 ∷ 101 ∷ 103 ∷ []) (start family)
    ≡ some (record {
      children = family;
      allowed = true ∷ true ∷ true ∷ [];
      request_count = 3;
      alive = pos 3;
      sent = 101 ∷ 102 ∷ 103 ∷ [];
    })
unfolding run_requests
run_test = refl

kills_test : sigint_kills (101 ∷ 0 ∷ 103 ∷ []) ≡ 101 ∷ 103 ∷ []
unfolding sigint_kills
kills_test = refl

callers_known : AllChildren family (102 ∷ 101 ∷ [])
unfolding get_child_id
callers_known = ((1, refl), ((0, refl), tt))

requests_served_example :
    (p : Parent) × (run_requests 2 (102 ∷ 101 ∷ []) (start family) ≡ some p)
    × (p.children ≡ family)
    × IsValid 2 p
    × ((pid i : ℕ)
        → get_child_id family pid ≡ some i
        → get_or p.allowed i false ≡ contains pid (102 ∷ 101 ∷ []))
requests_served_example = requests_served 2 family (102 ∷ 101 ∷ []) (omega arith) callers_known

stranger : run_requests 2 (7 ∷ []) (start family) ≡ none
unfolding get_child_id
stranger = stranger_faults 2 7 (start family) [] refl
