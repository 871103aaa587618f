-- ===== src/Queues/Tests.antt =====
-- The theorems on lab6/GeislerWojciech/cw06/zad1/server.c at a server with one client, and the client's
-- commands.
use agh_operating_systems.Base.{
  ℕ, ◌+◌, ◌%◌, ◌<◌, ◌≡◌, refl, Bool, true, false, some, none, [], ◌∷◌, ◌++◌, length, map, replicate,
  arith,
}
use agh_operating_systems.Base.Int.{ℤ, pos, negsuc}
use agh_operating_systems.Base.Text.{CString}
use agh_operating_systems.Queues.{
  div, calculate, calc, refused, fault, parse_command, mirror_req, end_req, Message, int_content,
  text_content, Response, Server, no_clients, get_queue, ended, handle_register, handle,
  receive_loop, max_clients, register_req,
}
use agh_operating_systems.Queues.Registering.{handle_register_lem, handle_register_full}
use agh_operating_systems.Queues.Serving.{
  mirrored, handle_answers, Handled, nothing, next, receive_loop_drains,
}

-- A library function that reads one digit.
abbrev atoi : CString → ℤ
atoi [] = pos 0
atoi (c ∷ s) = pos (c % 16)

commands :
    (parse_command atoi [] ≡ fault)
    × (parse_command atoi ((67 ∷ 65 ∷ 76 ∷ 67 ∷ []) ∷ (55 ∷ []) ∷ (47 ∷ []) ∷ (50 ∷ []) ∷ [])
        ≡ calc div (pos 7) (pos 2))
    × (parse_command atoi ((67 ∷ 65 ∷ 76 ∷ 67 ∷ []) ∷ (55 ∷ []) ∷ []) ≡ refused)
unfolding parse_command
commands = (refl, refl, refl)

quotients :
    (calculate div (negsuc 6) (pos 2) ≡ some (negsuc 2))
    × (calculate div (pos 7) (pos 0) ≡ none)
    × (calculate div (negsuc 2147483647) (negsuc 0) ≡ none)
unfolding calculate
quotients = (refl, refl, refl)

-- Every queue but the one with the number -1 takes messages.
abbrev takes : ℤ → Bool
takes (pos n) = true
takes (negsuc n) = false

abbrev date : CString
date = 77 ∷ 97 ∷ 121 ∷ 10 ∷ []

abbrev greeting : Message
greeting = record { request = register_req (pos 70); sender_id = negsuc 0; sender_pid = 900 }

abbrev one_client : Server
one_client = record { client_queues = pos 70 ∷ replicate 127 (pos 0); client_idx = 1 }

abbrev from_client : Message
from_client = record {
  request = mirror_req (97 ∷ 98 ∷ 99 ∷ []);
  sender_id = pos 0;
  sender_pid = 900;
}

abbrev the_end : Message
the_end = record { request = end_req; sender_id = pos 0; sender_pid = 900 }

abbrev mirror_response : Response
mirror_response = record { queue = pos 70; mtype = 900; content = text_content (99 ∷ 98 ∷ 97 ∷ []) }

abbrev greeting_response : Response
greeting_response = record { queue = pos 70; mtype = 900; content = int_content (pos 0) }

handle_register_run :
    (server' : Server) × (handle_register takes date no_clients greeting (pos 70)
      ≡ some (server', greeting_response ∷ []))
    × (get_queue server' (pos 0) ≡ some (pos 70))
    × ((id : ℕ) → id < 0 → get_queue server' (pos id) ≡ get_queue no_clients (pos id))
    × (server'.client_idx ≡ 0 + 1)
    × (length server'.client_queues ≡ max_clients)
unfolding no_clients
handle_register_run =
    handle_register_lem takes date no_clients greeting (pos 70) refl (omega arith) refl refl

abbrev full_server : Server
full_server = record { client_queues = replicate 128 (pos 70); client_idx = 128 }

handle_register_full_run : handle_register takes date full_server greeting (pos 71) ≡ none
handle_register_full_run =
    handle_register_full takes date full_server greeting (pos 71) (omega arith)

handle_answers_example :
    handle takes date one_client from_client ≡ some (one_client, mirror_response ∷ [])
unfolding get_queue
handle_answers_example =
    handle_answers takes date one_client from_client (pos 70) (text_content (99 ∷ 98 ∷ 97 ∷ []))
      (record { registered = refl; open_queue = refl }) (mirrored (omega arith))

-- A request behind the END message.
run-Handled :
    Handled takes date no_clients
      (greeting ∷ the_end ∷ from_client ∷ [])
      (greeting_response ∷ mirror_response ∷ [])
      one_client
unfolding handle no_clients
run-Handled =
    next {sent = greeting_response ∷ []} refl
      (next {sent = []} refl (next {sent = mirror_response ∷ []} refl nothing))

receive_loop_drains_example :
    receive_loop takes date no_clients false
      (map some (greeting ∷ the_end ∷ from_client ∷ []) ++ none ∷ some from_client ∷ [])
    ≡ (ended one_client, greeting_response ∷ mirror_response ∷ [])
receive_loop_drains_example =
    receive_loop_drains takes date no_clients one_client (greeting ∷ the_end ∷ from_client ∷ [])
      (greeting_response ∷ mirror_response ∷ []) (some from_client ∷ []) run-Handled
