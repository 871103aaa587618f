-- ===== src/Queues/Serving.antt =====
-- What the handlers and `receive_loop` of lab6/GeislerWojciech/cw06/zad1/server.c do with the requests
-- of registered clients.
use agh_operating_systems.Base.{
  ℕ, zero, suc, ◌+◌, ◌<◌, ◌≡◌, refl, sym, ◌∙◌, ap, Bool, true, false, ◌||◌, Option, none, some,
  List, [], ◌∷◌, ◌++◌, map, length, get_or, take, arith, if◌then◌else◌,
}
use mathlib.Core.List.{reverse, reverse_aux, append_assoc}
use agh_operating_systems.Base.Int.{ℤ}
use agh_operating_systems.Base.Text.{CString, take_of_le}
use agh_operating_systems.Queues.{
  ArithOp, calculate, Request, register_req, stop_req, unexpected, mirror_req, calc_req, time_req,
  end_req, Message, Answer, int_content, text_content, Response, content_sz, Server, get_queue,
  mirror_from, mirror_text, Status, ended, failed, send_to, handle_mirror, handle_calc, handle_time,
  switch, handle, is_end, receive_loop,
}

reverse_aux-take :
    (n : ℕ) (text rest : CString)
    → n < length text
    → reverse_aux (take (suc n) text) rest ≡ get_or text n 0 ∷ reverse_aux (take n text) rest
reverse_aux-take n [] rest h = absurd (omega arith)
reverse_aux-take zero (c ∷ text) rest h = refl
reverse_aux-take (suc n) (c ∷ text) rest h = reverse_aux-take n text (c ∷ rest) (omega arith)

mirror_from-eq :
    (n i : ℕ) (text : CString) → n + i ≡ length text → mirror_from n i text ≡ reverse (take n text)
unfolding mirror_from
mirror_from-eq zero i text h = refl
mirror_from-eq (suc n) i text h =
    ap (λ k. get_or text k 0 ∷ mirror_from n (i + 1) text) (omega arith)
    ∙ ap (λ t. get_or text n 0 ∷ t) (mirror_from-eq n (i + 1) text (omega arith))
    ∙ sym (reverse_aux-take n text [] (omega arith))

mirror_text-eq : (text : CString) → mirror_text text ≡ reverse text
unfolding mirror_text
mirror_text-eq text =
    mirror_from-eq (length text) 0 text (omega arith)
    ∙ ap reverse (take_of_le (length text) text (omega arith))

-- The answer that a request of a registered client has.
pub data Answered (date : CString) : Request → Answer → Type 0 where
  mirrored :
      {text : CString}
      → length text < content_sz
      → Answered date (mirror_req text) (text_content (reverse text))
  calculated :
      {op : ArithOp}
      → {a b result : ℤ} → calculate op a b ≡ some result
      → Answered date (calc_req op a b) (int_content result)
  told_time : length date < content_sz → Answered date time_req (text_content date)

module _ (takes : ℤ → Bool) (date : CString) where
  -- A client that has a queue which takes messages.
  pub record IsServed (server : Server) (msg : Message) (queue : ℤ) : Type 0 where
    pub registered : get_queue server msg.sender_id ≡ some queue
    pub open_queue : takes queue ≡ true

  send_to-served :
      (server : Server) (msg : Message) (queue : ℤ) (content : Answer)
      → IsServed server msg queue
      → send_to takes date server msg.sender_id msg.sender_pid content
        ≡ some (server, (record { queue = queue; mtype = msg.sender_pid; content = content }) ∷ [])
  unfolding send_to
  send_to-served server msg queue content h = ground (arith, h.registered, h.open_queue)

  switch_answers :
      (server : Server) (msg : Message) (queue : ℤ) (request : Request) (answer : Answer)
      → IsServed server msg queue
      → Answered date request answer
      → switch takes date server msg request
        ≡ some (server, (record { queue = queue; mtype = msg.sender_pid; content = answer }) ∷ [])
  unfolding switch handle_mirror handle_calc handle_time
  switch_answers server msg queue (register_req _) answer h x = elim x [ ]
  switch_answers server msg queue end_req answer h x = elim x [ ]
  switch_answers server msg queue stop_req answer h x = elim x [ ]
  switch_answers server msg queue unexpected answer h x = elim x [ ]
  switch_answers server msg queue (mirror_req text) answer h (mirrored fits) =
      ground (
        arith,
        mirror_text-eq text,
        send_to-served server msg queue (text_content (reverse text)) h,
      )
  switch_answers server msg queue (calc_req op a b) answer h (calculated {result = result} e) =
      ground (arith, e, send_to-served server msg queue (int_content result) h)
  switch_answers server msg queue time_req answer h (told_time fits) =
      ground (arith, send_to-served server msg queue (text_content date) h)

  -- A MIRROR, CALC or TIME request of a registered client has exactly one response: it goes to the
  -- client's own queue, has its process id for a type, and carries the reversed text, the result or the
  -- date; the server is as before.
  pub handle_answers :
      (server : Server) (msg : Message) (queue : ℤ) (answer : Answer)
      → IsServed server msg queue
      → Answered date msg.request answer
      → handle takes date server msg
        ≡ some (server, (record { queue = queue; mtype = msg.sender_pid; content = answer }) ∷ [])
  unfolding handle
  handle_answers server msg queue answer h a =
      switch_answers server msg queue msg.request answer h a

  -- The requests are handled one by one, with these responses, and none ends the process.
  pub data Handled : Server → List Message → List Response → Server → Type 0 where
    nothing : {server : Server} → Handled server [] [] server
    next :
        {server server' server'' : Server}
        → {msg : Message} → {msgs : List Message} → {sent more : List Response}
        → handle takes date server msg ≡ some (server', sent)
        → Handled server' msgs more server''
        → Handled server (msg ∷ msgs) (sent ++ more) server''

  abbrev pub has_end : List Message → Bool
  has_end [] = false
  has_end (msg ∷ msgs) = is_end msg || has_end msgs

  -- What a call of `msgrcv` that finds the queue empty leads to, after the responses `sent`.
  outcome : Bool → Server → List Response → List (Option Message) → Status × List Response
  outcome is_over server sent later =
      if is_over
      then (ended server, sent)
      else (let (status, more) = receive_loop takes date server false later in
          (status, sent ++ more))

  outcome-append :
      (is_over : Bool) (server : Server) (sent more : List Response) (later : List (Option Message))
      → (let (status, rest) = outcome is_over server more later in (status, sent ++ rest))
        ≡ outcome is_over server (sent ++ more) later
  unfolding outcome
  outcome-append true server sent more later = refl
  outcome-append false server sent more later =
      ap (λ r. ((receive_loop takes date server false later).0, r))
        (sym (append_assoc sent more (receive_loop takes date server false later).1))

  or_assoc : (a b c : Bool) → (a || b || c) ≡ (a || (b || c))
  or_assoc true b c = refl
  or_assoc false b c = refl

  -- The loop behind a request, given what its handler returned.
  after :
      List (Option Message)
      → List Message
      → Bool
      → Message
      → Option (Server × List Response)
      → Status × List Response
  after later msgs should_end msg none = (failed, [])
  after later msgs should_end msg (some (server, sent)) =
      let (status, more) =
        receive_loop takes date server (should_end || is_end msg) (map some msgs ++ none ∷ later) in
      (status, sent ++ more)

  receive_loop-after :
      (server : Server) (msg : Message) (msgs : List Message) (later : List (Option Message))
      (should_end : Bool)
      → receive_loop takes date server should_end (map some (msg ∷ msgs) ++ none ∷ later)
        ≡ after later msgs should_end msg (handle takes date server msg)
  unfolding receive_loop after
  receive_loop-after server msg msgs later should_end = ground arith

  receive_loop-outcome :
      (server server' : Server) (msgs : List Message) (sent : List Response)
      (later : List (Option Message)) (should_end : Bool)
      → Handled server msgs sent server'
      → receive_loop takes date server should_end (map some msgs ++ none ∷ later)
        ≡ outcome (should_end || has_end msgs) server' sent later
  unfolding receive_loop outcome after
  receive_loop-outcome server server' msgs sent later true nothing = refl
  receive_loop-outcome server server' msgs sent later false nothing = refl
  receive_loop-outcome server server' (msg ∷ msgs) sent later should_end
        (next {server' = middle} {sent = first} {more = rest} e h) =
      receive_loop-after server msg msgs later should_end
      ∙ ap (after later msgs should_end msg) e
      ∙ (ap (λ p. (p.0, first ++ p.1))
            (receive_loop-outcome middle server' msgs rest later (should_end || is_end msg) h)
          ∙ outcome-append (should_end || is_end msg || has_end msgs) server' first rest later
          ∙ ap (λ b. outcome b server' (first ++ rest) later)
              (or_assoc should_end (is_end msg) (has_end msgs)))

  -- After an END message the requests that are in the queue by then are all still handled, in order,
  -- those behind the END too: the loop ends with the first call that finds the queue empty, and not
  -- before; without an END message it goes on with what comes next.
  pub receive_loop_drains :
      (server server' : Server) (msgs : List Message) (sent : List Response)
      (later : List (Option Message))
      → Handled server msgs sent server'
      → receive_loop takes date server false (map some msgs ++ none ∷ later) ≡ (
          if has_end msgs
          then (ended server', sent)
          else (let (status, more) = receive_loop takes date server' false later in
              (status, sent ++ more)))
  unfolding outcome
  receive_loop_drains server server' msgs sent later h =
      receive_loop-outcome server server' msgs sent later false h
