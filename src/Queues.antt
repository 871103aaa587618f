-- ===== src/Queues.antt =====
-- The server on System V message queues of lab6/GeislerWojciech/cw06/zad1/server.c with the commands of
-- its client.c, and the arithmetic that it shares with lab10/GeislerWojciech/cw10/zad1. What a message
-- carries in `content` is an argument of its constructor. The queues themselves are the kernel's: a run
-- takes the messages in the order in which `msgrcv` gives them, and `send` is told by a parameter
-- which queues take a message.
pub mod Registering
pub mod Serving
mod Tests
use agh_operating_systems.Base.{
  ℕ, zero, suc, ◌+◌, ◌-◌, ◌*◌, ◌/◌, ◌<◌, Bool, true, false, ◌&&◌, ◌||◌, Option, none, some, List,
  [], ◌∷◌, ◌++◌, length, ltb, leb, ◌==◌, if◌then◌else◌, get_or, set, replicate,
}
use agh_operating_systems.Base.Int.{ℤ, pos, negsuc, ◌+ℤ◌, ◌-ℤ◌, ◌*ℤ◌, pos_part, neg_part, sub_ℕ}
use agh_operating_systems.Base.Text.{CString, str_eq}

-- `arith_op`, with a value that is none of them.
pub data ArithOp : Type 0 where
  add : ArithOp
  mul : ArithOp
  sub : ArithOp
  div : ArithOp
  unknown : ArithOp

-- The values of an `int`.
abbrev pub in_int : ℤ → Bool
in_int (pos n) = ltb n 2147483648
in_int (negsuc n) = ltb n 2147483648

-- An `int` result; overflow has no defined result.
abbrev pub checked : ℤ → Option ℤ
checked z = if in_int z then some z else none

-- C's division goes towards 0.
pub div_ℤ : ℤ → ℤ → ℤ
div_ℤ (pos a) (pos b) = pos (a / b)
div_ℤ (pos a) (negsuc b) = sub_ℕ 0 (a / suc b)
div_ℤ (negsuc a) (pos b) = sub_ℕ 0 (suc a / b)
div_ℤ (negsuc a) (negsuc b) = pos (suc a / suc b)

-- The `switch` of `handle_calc` and of `calculate`; `none` is undefined behaviour.
unfoldable pub calculate : ArithOp → ℤ → ℤ → Option ℤ
unfolding div_ℤ ◌+ℤ◌ ◌-ℤ◌ ◌*ℤ◌
calculate add a b = checked (a +ℤ b)
calculate sub a b = checked (a -ℤ b)
calculate mul a b = checked (a *ℤ b)
calculate div a (pos zero) = none
calculate div a (pos (suc b)) = checked (div_ℤ a (pos (suc b)))
calculate div a (negsuc b) = checked (div_ℤ a (negsuc b))
calculate unknown a b = some (pos 0)

-- `char_to_op`, for '+', '-', '*' and '/'.
unfoldable pub char_to_op : ℕ → Option ArithOp
char_to_op c =
    if c == 43
    then some add
    else if c == 45
    then some sub
    else if c == 42
    then some mul
    else if c == 47
    then some div
    else none

-- What the client makes of a command: `refused` is a message to the user, `fault` a `strcmp` with
-- `NULL` or an exit for an unknown operator. `atoi` is the library's.
pub data Command : Type 0 where
  mirror : CString → Command
  calc : ArithOp → ℤ → ℤ → Command
  time : Command
  end : Command
  refused : Command
  fault : Command

abbrev pub first_char : CString → ℕ
first_char s = get_or s 0 0

pub make_calc : (CString → ℤ) → List CString → Command
unfolding char_to_op
make_calc atoi toks = elim (char_to_op (first_char (get_or toks 2 []))) [
  | none ↦ fault
  | some op ↦ calc op (atoi (get_or toks 1 [])) (atoi (get_or toks 3 []))
]

-- "MIRROR", "CALC", "TIME" and "END"
abbrev pub mirror_name : CString
mirror_name = 77 ∷ 73 ∷ 82 ∷ 82 ∷ 79 ∷ 82 ∷ []

abbrev pub calc_name : CString
calc_name = 67 ∷ 65 ∷ 76 ∷ 67 ∷ []

abbrev pub time_name : CString
time_name = 84 ∷ 73 ∷ 77 ∷ 69 ∷ []

abbrev pub end_name : CString
end_name = 69 ∷ 78 ∷ 68 ∷ []

pub parse_command : (CString → ℤ) → List CString → Command
unfolding make_calc str_eq
parse_command atoi [] = fault
parse_command atoi (name ∷ args) =
    if str_eq name mirror_name
    then if ltb (length args + 1) 2 then refused else mirror (get_or args 0 [])
    else if str_eq name calc_name
    then if ltb (length args + 1) 4 then refused else make_calc atoi (name ∷ args)
    else if str_eq name time_name
    then time
    else if str_eq name end_name
    then end
    else refused

-- `MSG_TYPE` with what the message carries.
pub data Request : Type 0 where
  register_req : ℤ → Request
  mirror_req : CString → Request
  calc_req : ArithOp → ℤ → ℤ → Request
  time_req : Request
  end_req : Request
  stop_req : Request
  unexpected : Request

-- `msgbuf`
pub record Message : Type 0 where
  pub request : Request
  pub sender_id : ℤ
  pub sender_pid : ℕ

pub data Answer : Type 0 where
  int_content : ℤ → Answer
  text_content : CString → Answer

-- A response with the queue that it is sent to; its type is the process id of the sender.
pub record Response : Type 0 where
  pub queue : ℤ
  pub mtype : ℕ
  pub content : Answer

abbrev pub max_clients : ℕ
max_clients = 128

abbrev pub content_sz : ℕ
content_sz = 128

-- `client_queues` and `client_idx`
pub record Server : Type 0 where
  pub client_queues : List ℤ
  pub client_idx : ℕ

pub no_clients : Server
no_clients = record { client_queues = replicate max_clients (pos 0); client_idx = 0 }

-- `client_queues[id]`; `none` is an access out of bounds.
pub get_queue : Server → ℤ → Option ℤ
get_queue server (negsuc n) = none
get_queue server (pos n) =
    if ltb n max_clients then some (get_or server.client_queues n (pos 0)) else none

-- The content of the answer of `handle_mirror` from its `i`-th byte on, where `n` are left.
pub mirror_from : ℕ → ℕ → CString → CString
mirror_from zero i text = []
mirror_from (suc n) i text = get_or text (length text - i - 1) 0 ∷ mirror_from n (i + 1) text

pub mirror_text : CString → CString
unfolding mirror_from
mirror_text text = mirror_from (length text) 0 text

abbrev pub is_end : Message → Bool
is_end msg = elim msg.request [ end_req ↦ true | _ ↦ false ]

-- How far `receive_loop` is: more calls, its end, or an exit of the process.
pub data Status : Type 0 where
  running : Server → Bool → Status
  ended : Server → Status
  failed : Status

-- `takes` tells which queues `msgsnd` can send to; `date` is what the program `date` prints.
module _ (takes : ℤ → Bool) (date : CString) where
  -- `send_to`; `none` is the exit where sending fails.
  pub send_to : Server → ℤ → ℕ → Answer → Option (Server × List Response)
  unfolding get_queue
  send_to server client_id pid content = elim (get_queue server client_id) [
    | none ↦ none
    | some qid ↦
        if takes qid
        then some (server, (record { queue = qid; mtype = pid; content = content }) ∷ [])
        else none
  ]

  -- `none` is the assertion, or the write behind the end of `client_queues`.
  pub handle_register : Server → Message → ℤ → Option (Server × List Response)
  unfolding send_to
  handle_register server msg client_msqid = elim msg.sender_id [
    | pos n ↦ none
    | negsuc n ↦
        if n == 0 && ltb server.client_idx max_clients
        then send_to
            (record {
              client_queues = set server.client_queues server.client_idx client_msqid;
              client_idx = server.client_idx + 1;
            })
            (pos server.client_idx) msg.sender_pid (int_content (pos server.client_idx))
        else none
  ]

  -- A text that does not fit the content of a message has no answer.
  pub handle_mirror : Server → Message → CString → Option (Server × List Response)
  unfolding send_to mirror_text
  handle_mirror server msg text =
      if ltb (length text) content_sz
      then send_to server msg.sender_id msg.sender_pid (text_content (mirror_text text))
      else none

  pub handle_calc : Server → Message → ArithOp → ℤ → ℤ → Option (Server × List Response)
  unfolding send_to calculate
  handle_calc server msg op arg1 arg2 = elim (calculate op arg1 arg2) [
    | none ↦ none
    | some result ↦ send_to server msg.sender_id msg.sender_pid (int_content result)
  ]

  pub handle_time : Server → Message → Option (Server × List Response)
  unfolding send_to
  handle_time server msg =
      if ltb (length date) content_sz
      then send_to server msg.sender_id msg.sender_pid (text_content date)
      else none

  -- STOP: the queue is removed and its entry set to -1.
  pub handle_stop : Server → ℤ → Option (Server × List Response)
  handle_stop server (negsuc n) = none
  handle_stop server (pos n) =
      if ltb n max_clients
      then some (record server { client_queues = set server.client_queues n (negsuc 0) }, [])
      else none

  -- The `switch` of `receive_loop`, on the type of the message.
  pub switch : Server → Message → Request → Option (Server × List Response)
  unfolding handle_register handle_mirror handle_calc handle_time handle_stop
  switch server msg (register_req qid) = handle_register server msg qid
  switch server msg (mirror_req text) = handle_mirror server msg text
  switch server msg (calc_req op a b) = handle_calc server msg op a b
  switch server msg time_req = handle_time server msg
  switch server msg stop_req = handle_stop server msg.sender_id
  switch server msg end_req = some (server, [])
  switch server msg unexpected = some (server, [])

  pub handle : Server → Message → Option (Server × List Response)
  unfolding switch
  handle server msg = switch server msg msg.request

  -- `receive_loop`: the calls of `msgrcv`, where `none` is a call that finds the queue empty; it waits,
  -- or ends the loop after an END message.
  pub receive_loop : Server → Bool → List (Option Message) → Status × List Response
  unfolding handle
  receive_loop server should_end [] = (running server should_end, [])
  receive_loop server should_end (none ∷ calls) = elim should_end [
    | true ↦ (ended server, [])
    | false ↦ receive_loop server false calls
  ]
  receive_loop server should_end (some msg ∷ calls) = elim (handle server msg) [
    | none ↦ (failed, [])
    | some (server', sent) ↦
        let (status, more) = receive_loop server' (should_end || is_end msg) calls in
        (status, sent ++ more)
  ]
