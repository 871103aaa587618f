-- ===== src/Signals/Permission.antt =====
-- When the parent of lab4/GeislerWojciech/cw04/zad2/main.c sends permissions, and to whom.
use mathlib.Core.Path.{subst}
use mathlib.Core.List.{append_assoc}
use agh_operating_systems.Base.{
  ℕ, zero, suc, ◌+◌, ◌≤◌, ◌<◌, ◌≡◌, refl, ap, ◌∙◌, sym, Bool, true, false, none, some, List, [],
  ◌∷◌, ◌++◌, length, length-set, get_or, set, replicate, length-replicate, ◌==◌, if◌then◌else◌,
  arith,
}
use agh_operating_systems.Base.Arrays.{get_or-set_self, get_or-set_ne}
use agh_operating_systems.Base.Int.{pos}
use agh_operating_systems.Signals.{
  Parent, get_child_id, allow_all, note_request, permit, request_handler, run_requests,
}

-- How many children have asked.
abbrev pub asked : List Bool → ℕ
asked [] = 0
asked (b ∷ bs) = if b then suc (asked bs) else asked bs

abbrev pub contains : ℕ → List ℕ → Bool
contains pid [] = false
contains pid (q ∷ qs) = if q == pid then true else contains pid qs

-- Every child that has asked is among `sent`.
abbrev pub AllSent : List ℕ → List Bool → List ℕ → Type 0
AllSent [] allowed sent = Unit
AllSent (child ∷ children) [] sent = Unit
AllSent (child ∷ children) (b ∷ allowed) sent =
    (b ≡ true → contains child sent ≡ true) × AllSent children allowed sent

pub record IsValid (k : ℕ) (p : Parent) : Type 0 where
  pub len : length p.allowed ≡ length p.children
  pub counted : p.request_count ≡ asked p.allowed
  pub early : p.request_count < k → p.sent ≡ []
  pub late : k ≤ p.request_count → AllSent p.children p.allowed p.sent

contains-append_left :
    (pid : ℕ) (xs ys : List ℕ) → contains pid xs ≡ true → contains pid (xs ++ ys) ≡ true
contains-append_left pid [] ys h = cc
contains-append_left pid (x ∷ xs) ys h = ground (arith, contains-append_left pid xs ys)

contains-append_right :
    (pid : ℕ) (xs ys : List ℕ) → contains pid ys ≡ true → contains pid (xs ++ ys) ≡ true
contains-append_right pid [] ys h = h
contains-append_right pid (x ∷ xs) ys h = ground (arith, contains-append_right pid xs ys)

AllSent-append :
    (children : List ℕ) (allowed : List Bool) (xs ys : List ℕ)
    → AllSent children allowed xs
    → AllSent children allowed (xs ++ ys)
AllSent-append [] allowed xs ys h = tt
AllSent-append (c ∷ children) [] xs ys h = tt
AllSent-append (c ∷ children) (b ∷ allowed) xs ys h =
    (λ e. contains-append_left c xs ys (h.0 e), AllSent-append children allowed xs ys h.1)

-- `allow_all` signals every child that has asked. The list grows in front as the loop goes on.
AllSent-allow_all :
    (children : List ℕ) (allowed : List Bool) (xs : List ℕ)
    → AllSent children allowed (xs ++ allow_all children allowed)
unfolding allow_all
AllSent-allow_all [] allowed xs = tt
AllSent-allow_all (c ∷ children) [] xs = tt
AllSent-allow_all (c ∷ children) (true ∷ allowed) xs = (
  λ e. contains-append_right c xs (c ∷ allow_all children allowed) (ground arith),
  subst (AllSent children allowed) (append_assoc xs (c ∷ []) (allow_all children allowed))
      (AllSent-allow_all children allowed (xs ++ c ∷ [])),
)
AllSent-allow_all (c ∷ children) (false ∷ allowed) xs =
    (λ e. cc, AllSent-allow_all children allowed xs)

asked-set :
    (bs : List Bool) (i : ℕ)
    → i < length bs
    → get_or bs i false ≡ false
    → asked (set bs i true) ≡ suc (asked bs)
asked-set [] i h e = absurd (omega arith)
asked-set (b ∷ bs) zero h e = ground arith
asked-set (b ∷ bs) (suc i) h e = ground (arith, asked-set bs i)

get_child_id-lt :
    (children : List ℕ) (pid id : ℕ)
    → get_child_id children pid ≡ some id
    → (id < length children) × (get_or children id 0 ≡ pid)
unfolding get_child_id
get_child_id-lt [] pid id h = cc
get_child_id-lt (c ∷ children) pid zero h = ground arith
get_child_id-lt (c ∷ children) pid (suc id) h = ground (arith, get_child_id-lt children pid id)

-- A child that has just asked, and is signalled, is covered again.
AllSent-set :
    (children : List ℕ) (allowed : List Bool) (id : ℕ) (sent : List ℕ)
    → AllSent children allowed sent
    → contains (get_or children id 0) sent ≡ true
    → AllSent children (set allowed id true) sent
AllSent-set [] allowed id sent h e = tt
AllSent-set (c ∷ children) [] id sent h e = tt
AllSent-set (c ∷ children) (b ∷ allowed) zero sent h e = (λ _. e, h.1)
AllSent-set (c ∷ children) (b ∷ allowed) (suc id) sent h e =
    (h.0, AllSent-set children allowed id sent h.1 e)

contains_last : (pid : ℕ) (xs : List ℕ) → contains pid (xs ++ pid ∷ []) ≡ true
contains_last pid [] = ground arith
contains_last pid (x ∷ xs) = ground (arith, contains_last pid xs)

-- A child that asks again.
permit-IsValid : (k caller : ℕ) (p : Parent) → IsValid k p → IsValid k (permit k caller p)
unfolding permit
permit-IsValid k caller p v = record {
  len = ground (arith, v.len);
  counted = ground (arith, v.counted);
  early = λ h. ground (arith, v.early);
  late = λ h. ground (
    arith,
    v.late,
    AllSent-allow_all p.children p.allowed p.sent,
    AllSent-append p.children p.allowed p.sent (caller ∷ []),
  );
}

abbrev noted : ℕ → Parent → Parent
noted id p = record p { request_count = p.request_count + 1; allowed = set p.allowed id true }

-- A child that asks for the first time.
permit_new-IsValid :
    (k id : ℕ) (p : Parent)
    → IsValid k p
    → id < length p.children
    → get_or p.allowed id false ≡ false
    → IsValid k (permit k (get_or p.children id 0) (noted id p))
unfolding permit
permit_new-IsValid k id p v h e = record {
  len = ground (arith, v.len, length-set p.allowed id true);
  counted = ground (arith, v.counted, asked-set p.allowed id, v.len);
  early = λ l. ground (arith, v.early);
  late = λ l. ground (
    arith,
    AllSent-allow_all p.children (set p.allowed id true) p.sent,
    AllSent-set p.children p.allowed id (p.sent ++ get_or p.children id 0 ∷ []),
    AllSent-append p.children p.allowed p.sent (get_or p.children id 0 ∷ []),
    v.late,
    contains_last (get_or p.children id 0) p.sent,
  );
}

note_request-old : (id : ℕ) (p : Parent) → get_or p.allowed id false ≡ true → note_request id p ≡ p
unfolding note_request
note_request-old id p e = rw e

note_request-new :
    (id : ℕ) (p : Parent) → get_or p.allowed id false ≡ false → note_request id p ≡ noted id p
unfolding note_request
note_request-new id p e = ground arith

handled-IsValid :
    (k id : ℕ) (p : Parent)
    → IsValid k p
    → id < length p.children
    → (b : Bool) → get_or p.allowed id false ≡ b
    → IsValid k (permit k (get_or p.children id 0) (note_request id p))
handled-IsValid k id p v h true e =
    subst (λ t. IsValid k (permit k (get_or p.children id 0) t)) (sym (note_request-old id p e))
      (permit-IsValid k (get_or p.children id 0) p v)
handled-IsValid k id p v h false e =
    subst (λ t. IsValid k (permit k (get_or p.children id 0) t)) (sym (note_request-new id p e))
      (permit_new-IsValid k id p v h e)

-- A request of a process that is no child of the table.
handler_stranger :
    (k caller : ℕ) (p : Parent)
    → get_child_id p.children caller ≡ none
    → request_handler k caller p ≡ none
unfolding request_handler
handler_stranger k caller p e = rw (e, request_handler)

handler_child :
    (k caller id : ℕ) (p : Parent)
    → get_child_id p.children caller ≡ some id
    → request_handler k caller p ≡ some (permit k caller (note_request id p))
unfolding request_handler
handler_child k caller id p e = rw (e, request_handler)

children-permit :
    (k caller id : ℕ) (p : Parent) → (permit k caller (note_request id p)).children ≡ p.children
unfolding permit note_request
children-permit k caller id p = ground arith

-- Every caller is one of the children.
abbrev pub AllChildren : List ℕ → List ℕ → Type 0
AllChildren children [] = Unit
AllChildren children (caller ∷ callers) =
    ((id : ℕ) × (get_child_id children caller ≡ some id)) × AllChildren children callers

abbrev pub start : List ℕ → Parent
start children = record {
  children = children;
  allowed = replicate (length children) false;
  request_count = 0;
  alive = pos (length children);
  sent = [];
}

asked-start : (n : ℕ) → asked (replicate n false) ≡ 0
asked-start zero = refl
asked-start (suc n) = asked-start n

start-IsValid : (k : ℕ) (children : List ℕ) → 0 < k → IsValid k (start children)
start-IsValid k children h = record {
  len = length-replicate (length children) false;
  counted = sym (asked-start (length children));
  early = λ l. refl;
  late = λ l. absurd (omega arith);
}

-- What a request of the child with pid `caller` makes of the mark of the child with pid `pid`.
flag_step :
    (k caller id : ℕ) (p : Parent) (pid i : ℕ)
    → length p.allowed ≡ length p.children
    → get_child_id p.children caller ≡ some id
    → get_child_id p.children pid ≡ some i
    → get_or (permit k caller (note_request id p)).allowed i false
      ≡ (if caller == pid then true else get_or p.allowed i false)
unfolding permit note_request
flag_step k caller id p pid i len e g = ground (
  arith,
  get_child_id-lt p.children caller id e,
  get_child_id-lt p.children pid i g,
  get_or-set_self p.allowed id true false,
  get_or-set_ne p.allowed id i true false,
  ap (get_child_id p.children),
)

run-IsValid :
    (k : ℕ) (callers : List ℕ) (p : Parent)
    → IsValid k p
    → AllChildren p.children callers
    → (p' : Parent) × (run_requests k callers p ≡ some p')
      × (p'.children ≡ p.children)
      × IsValid k p'
      × ((pid i : ℕ)
          → get_child_id p.children pid ≡ some i
          → get_or p'.allowed i false
            ≡ (if contains pid callers then true else get_or p.allowed i false))
unfolding run_requests
run-IsValid k [] p v h = (p, refl, refl, v, λ pid i g. refl)
run-IsValid k (caller ∷ callers) p v ((id, e), h) =
    let q = permit k caller (note_request id p) in
    let kept = children-permit k caller id p in
    let (l, c) = get_child_id-lt p.children caller id e in
    let w : IsValid k q =
      subst (λ t. IsValid k (permit k t (note_request id p))) c
        (handled-IsValid k id p v l (get_or p.allowed id false) refl) in
    let (p', run, same, v', flags) =
      run-IsValid k callers q w (subst (λ t. AllChildren t callers) (sym kept) h) in
    (
      p',
      rw (handler_child k caller id p e, run_requests) run,
      same ∙ kept,
      v',
      λ pid i g. ground (
        arith,
        flags pid i (ap (λ t. get_child_id t pid) kept ∙ g),
        flag_step k caller id p pid i v.len e g,
      ),
    )

none_marked : (n i : ℕ) → get_or (replicate n false) i false ≡ false
none_marked zero i = refl
none_marked (suc n) zero = refl
none_marked (suc n) (suc i) = none_marked n i

-- For every sequence of requests from children, no handler call goes wrong. In the end exactly the children
-- that called are marked in `allowed`, and the counter is the number of marks; while it is below `k` no
-- permission was sent, and once it has reached `k` every child that has called has been sent one.
pub requests_served :
    (k : ℕ) (children callers : List ℕ)
    → 0 < k
    → AllChildren children callers
    → (p : Parent) × (run_requests k callers (start children) ≡ some p)
      × (p.children ≡ children)
      × IsValid k p
      × ((pid i : ℕ)
          → get_child_id children pid ≡ some i
          → get_or p.allowed i false ≡ contains pid callers)
requests_served k children callers h c =
    let (p, run, same, v, flags) =
      run-IsValid k callers (start children) (start-IsValid k children h) c in
    (p, run, same, v, λ pid i g. ground (arith, flags pid i g, none_marked (length children) i))

-- A request of a process that is no child is an access to `allowed[-1]`.
pub stranger_faults :
    (k caller : ℕ) (p : Parent) (callers : List ℕ)
    → get_child_id p.children caller ≡ none
    → run_requests k (caller ∷ callers) p ≡ none
unfolding run_requests
stranger_faults k caller p callers e = rw (handler_stranger k caller p e, run_requests)
