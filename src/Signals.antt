-- ===== src/Signals.antt =====
-- The parent process of lab4/GeislerWojciech/cw04/zad2/main.c: its table of children, the counter of
-- requests, and its signal handlers. All signals are masked while a handler runs, so a run is a
-- sequence of handler calls.
pub mod Permission
mod Tests
use agh_operating_systems.Base.{
  ℕ, zero, suc, ◌+◌, ◌-◌, Bool, true, false, Option, none, some, List, [], ◌∷◌, ◌++◌, get_or, set,
  leb, ltb, ◌==◌, if◌then◌else◌,
}
use agh_operating_systems.Base.Int.{ℤ, pos, ◌-ℤ◌}

-- `children`, `allowed`, `request_count` and `alive`; `sent` are the processes that were sent SIGALRM.
pub record Parent : Type 0 where
  pub children : List ℕ
  pub allowed : List Bool
  pub request_count : ℕ
  pub alive : ℤ
  pub sent : List ℕ

-- `get_child_id`; `none` is its -1.
pub get_child_id : List ℕ → ℕ → Option ℕ
get_child_id [] pid = none
get_child_id (child ∷ children) pid = elim (child == pid) [
  | true ↦ some 0
  | false ↦ elim (get_child_id children pid) [ none ↦ none | some id ↦ some (suc id) ]
]

-- The processes that `allow_all` signals.
pub allow_all : List ℕ → List Bool → List ℕ
allow_all [] allowed = []
allow_all (child ∷ children) [] = []
allow_all (child ∷ children) (b ∷ allowed) =
    if b then child ∷ allow_all children allowed else allow_all children allowed

-- The first half of `request_handler`: the request is counted, if it is the child's first.
pub note_request : ℕ → Parent → Parent
note_request id p =
    if get_or p.allowed id false
    then p
    else record p { request_count = p.request_count + 1; allowed = set p.allowed id true }

-- Its second half: permissions are sent once there are `k` requests.
pub permit : ℕ → ℕ → Parent → Parent
unfolding allow_all
permit k caller p =
    if p.request_count == k
    then record p { sent = p.sent ++ allow_all p.children p.allowed }
    else if ltb k p.request_count
    then record p { sent = p.sent ++ caller ∷ [] }
    else p

-- `none` is the access to `allowed[-1]`, for a caller that is no child.
pub request_handler : ℕ → ℕ → Parent → Option Parent
unfolding get_child_id note_request permit
request_handler k caller p = elim (get_child_id p.children caller) [
  | none ↦ none
  | some id ↦ some (permit k caller (note_request id p))
]

-- `none` is the access to `children[-1]`, or the failed assertion on the status.
pub sigchld_handler : ℕ → ℕ → Parent → Option Parent
unfolding get_child_id
sigchld_handler child status p = elim (get_child_id p.children child) [
  | none ↦ none
  | some id ↦
      if leb status 10
      then some (record p { alive = p.alive -ℤ pos 1; children = set p.children id 0 })
      else none
]

-- The children that `sigint_handler` kills.
pub sigint_kills : List ℕ → List ℕ
sigint_kills [] = []
sigint_kills (child ∷ children) =
    if child == 0 then sigint_kills children else child ∷ sigint_kills children

-- A sequence of requests, by their callers.
pub run_requests : ℕ → List ℕ → Parent → Option Parent
unfolding request_handler
run_requests k [] p = some p
run_requests k (caller ∷ callers) p = elim (request_handler k caller p) [
  | none ↦ none
  | some p' ↦ run_requests k callers p'
]
