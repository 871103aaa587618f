-- ===== src/Posix/Handling.antt =====
-- What the server of lab6/GeislerWojciech/cw06/zad2 makes of each message of a client.
use agh_operating_systems.Base.{
  ℕ, ◌<◌, ◌≡◌, refl, Bool, true, false, ◌&&◌, Option, none, some, List, [], ◌∷◌, ◌++◌, length, ltb,
  if◌then◌else◌, get_or, set, arith, sym, ap, ◌∙◌,
}
use agh_operating_systems.Base.Arrays.{get_or-set_self}
use agh_operating_systems.Base.Int.{ℤ, pos, negsuc}
use agh_operating_systems.Base.Text.{CString}
use agh_operating_systems.Queues.{
  calculate, Command, mirror, calc, time, end, refused, fault, Answer, int_content, text_content,
  max_clients, mirror_text,
}
use agh_operating_systems.Posix.{
  Request, register_req, end_req, stop_req, Response, RespType, register_resp, mirror_resp,
  calc_resp, time_resp, Server, set_nonblock, send_to, registered, send_result, switch, to_request,
}

some_inj {ℓ} : {A : Type ℓ} {x y : A} → some x ≡ some y → x ≡ y
some_inj {x} e = ap (λ o. elim o [ none ↦ x | some v ↦ v ]) e

not_some {ℓ} : {A : Type ℓ} {x : A} → ¬ (none ≡ some x)
not_some e = ground arith

-- A guarded result.
if_some {ℓ} :
    {A : Type ℓ} (b : Bool) (x y : A) → (if b then some x else none) ≡ some y → (b ≡ true) × (x ≡ y)
if_some true x y e = (refl, some_inj e)
if_some false x y e = absurd (not_some e)

if_guard {ℓ} :
    {A : Type ℓ} (b : Bool) (x : Option A) {y : A} → (if b then x else none) ≡ some y → x ≡ some y
if_guard true x e = e
if_guard false x e = absurd (not_some e)

if_true {ℓ} :
    {A : Type ℓ} (b : Bool) (x : Option A) {y : A} → (if b then x else none) ≡ some y → b ≡ true
if_true true x e = refl
if_true false x e = absurd (not_some e)

ltb_lt : {n m : ℕ} → (true && ltb n m) ≡ true → n < m
ltb_lt e = ground arith

-- The answer that belongs to a command.
abbrev pub result_answer : Option ℤ → List Answer
result_answer none = []
result_answer (some result) = int_content result ∷ []

abbrev pub reply : CString → Command → List Answer
reply date (mirror text) = text_content (mirror_text text) ∷ []
reply date (calc op arg1 arg2) = result_answer (calculate op arg1 arg2)
reply date time = text_content date ∷ []
reply date end = []
reply date refused = []
reply date fault = []

-- One response goes to descriptor `d`, with the content `answers`.
pub record Sends (d : ℕ) (answers : List Answer) (sent : List Response) : Type 0 where
  pub response : Response
  pub only : sent ≡ response ∷ []
  pub to : response.queue ≡ pos d
  pub content : answers ≡ response.content ∷ []

module _ (takes : ℤ → Bool) (mq_open : CString → ℤ) (date : CString) where
  Sends-send_to :
      (server server' : Server) (sent : List Response) (n d : ℕ) (mtype : RespType)
      (answer : Answer)
      → get_or server.client_queues n (pos 0) ≡ pos d
      → send_to takes mq_open date server (pos n) mtype answer ≡ some (server', sent)
      → (server' ≡ server) × Sends d (answer ∷ []) sent
  Sends-send_to server server' sent n d mtype answer e h =
      let (b, same) = if_some _ _ _ h in
      (
        ap (λ p. p.0) (sym same),
        record { response = _; only = ap (λ p. p.1) (sym same); to = e; content = refl },
      )

  Sends-send_result :
      (server server' : Server) (sent : List Response) (n d : ℕ) (result : Option ℤ)
      → get_or server.client_queues n (pos 0) ≡ pos d
      → send_result takes mq_open date server (pos n) result ≡ some (server', sent)
      → (server' ≡ server) × Sends d (result_answer result) sent
  Sends-send_result server server' sent n d none e h = absurd (ground arith)
  Sends-send_result server server' sent n d (some result) e h =
      Sends-send_to server server' sent n d calc_resp (int_content result) e h

  -- A command of a client whose queue the server knows has one response if the server survives it: the
  -- answer that belongs to the command, on the queue of that client; the table of the server stays.
  pub Sends-switch :
      (server server' : Server) (sent : List Response) (command : Command) (request : Request)
      (n d : ℕ)
      → to_request command ≡ some request
      → get_or server.client_queues n (pos 0) ≡ pos d
      → switch takes mq_open date server (pos n) request ≡ some (server', sent)
      → (server' ≡ server) × Sends d (reply date command) sent
  Sends-switch server server' sent (mirror text) request n d r e h =
      Sends-send_to server server' sent n d mirror_resp (text_content (mirror_text text)) e
        (if_guard _ _ (ap (switch takes mq_open date server (pos n)) (some_inj r) ∙ h))
  Sends-switch server server' sent (calc op arg1 arg2) request n d r e h =
      Sends-send_result server server' sent n d (calculate op arg1 arg2) e
        (ap (switch takes mq_open date server (pos n)) (some_inj r) ∙ h)
  Sends-switch server server' sent time request n d r e h =
      Sends-send_to server server' sent n d time_resp (text_content date) e
        (if_guard _ _ (ap (switch takes mq_open date server (pos n)) (some_inj r) ∙ h))
  Sends-switch server server' sent end request n d r e h = absurd (not_some r)
  Sends-switch server server' sent refused request n d r e h = absurd (not_some r)
  Sends-switch server server' sent fault request n d r e h = absurd (not_some r)

  -- The first message of a client puts its queue behind those of the others and answers with its place.
  pub switch_register :
      (server server' : Server) (sent : List Response) (queue_name : CString) (d : ℕ)
      → length server.client_queues ≡ max_clients
      → mq_open queue_name ≡ pos d
      → switch takes mq_open date server (negsuc 0) (register_req queue_name) ≡ some (server', sent)
      → (server' ≡ registered takes mq_open date server queue_name)
        × (server.client_idx < max_clients)
        × Sends d (int_content (pos server.client_idx) ∷ []) sent
  switch_register server server' sent queue_name d len opened h =
      let lt = ltb_lt (if_true _ _ h) in
      let (same, sends) =
        Sends-send_to (registered takes mq_open date server queue_name) server' sent
          server.client_idx d register_resp (int_content (pos server.client_idx))
          (get_or-set_self server.client_queues server.client_idx (mq_open queue_name) (pos 0)
              (omega (arith, lt, len))
            ∙ opened)
          (if_guard _ _ h) in
      (same, lt, sends)

  pub switch_end :
      (server server' : Server) (sent : List Response) (z : ℤ)
      → switch takes mq_open date server z end_req ≡ some (server', sent)
      → (server' ≡ set_nonblock server) × (sent ≡ [])
  switch_end server server' sent z h =
      (ap (λ p. p.0) (sym (some_inj h)), ap (λ p. p.1) (sym (some_inj h)))

  pub switch_stop :
      (server server' : Server) (sent : List Response) (n : ℕ)
      → switch takes mq_open date server (pos n) stop_req ≡ some (server', sent)
      → (server' ≡ record server {
        client_queues = set server.client_queues n (negsuc 0);
        closed = server.closed ++ get_or server.client_queues n (pos 0) ∷ [];
      })
        × (sent ≡ [])
  switch_stop server server' sent n h =
      let (b, same) = if_some _ _ _ h in (ap (λ p. p.0) (sym same), ap (λ p. p.1) (sym same))
