-- ===== src/Posix.antt =====
-- The server and the client on POSIX message queues of lab6/GeislerWojciech/cw06/zad2: server.c and
-- client.c. The arithmetic, the commands and the text of an answer are those of Queues, where the source
-- has the same text. A descriptor is a number; `mq_open` is a parameter of one call of a handler, for the
-- descriptor that it gives there.
pub mod Handling
use agh_operating_systems.Base.{
  ℕ, zero, suc, ◌+◌, ◌-◌, ◌<◌, ◌≡◌, Bool, true, false, ◌&&◌, Option, none, some, List, [], ◌∷◌,
  ◌++◌, length, ltb, ◌==◌, if◌then◌else◌, get_or, set, replicate, update,
}
use agh_operating_systems.Base.Int.{ℤ, pos, negsuc}
use agh_operating_systems.Base.Text.{CString}
use agh_operating_systems.Queues.{
  ArithOp, calculate, Command, mirror, calc, time, end, refused, fault, Answer, int_content,
  text_content, max_clients, content_sz, mirror_text,
}

-- `MSG_TYPE` with what a message to the server carries.
pub data Request : Type 0 where
  register_req : (queue_name : CString) → Request
  mirror_req : (text : CString) → Request
  calc_req : (op : ArithOp) → (arg1 arg2 : ℤ) → Request
  time_req : Request
  end_req : Request
  stop_req : Request
  unexpected : Request

-- `msgbuf`
pub record Message : Type 0 where
  pub request : Request
  pub sender_id : ℤ
  pub sender_pid : ℕ

pub data RespType : Type 0 where
  register_resp mirror_resp calc_resp time_resp : RespType

-- A response with the descriptor that it is sent to.
pub record Response : Type 0 where
  pub queue : ℤ
  pub mtype : RespType
  pub content : Answer

-- `client_queues`, `client_idx` and O_NONBLOCK of the queue of the server; `closed` are the descriptors that
-- were handed to `mq_close`.
pub record Server : Type 0 where
  pub client_queues : List ℤ
  pub client_idx : ℕ
  pub nonblock : Bool
  pub closed : List ℤ

abbrev pub no_clients : Server
no_clients = record {
  client_queues = replicate max_clients (pos 0);
  client_idx = 0;
  nonblock = false;
  closed = [];
}

abbrev pub set_nonblock : Server → Server
set_nonblock server = record server { nonblock = true }

-- `takes` tells which descriptors `mq_send` can send to; `mq_open` gives the descriptor for a name;
-- `date` is what the program `date` prints.
module _ (takes : ℤ → Bool) (mq_open : CString → ℤ) (date : CString) where
  -- `none` is the exit where sending fails, or an access outside of `client_queues`.
  abbrev pub send_to : Server → ℤ → RespType → Answer → Option (Server × List Response)
  send_to server (negsuc n) mtype content = none
  send_to server (pos n) mtype content =
      if ltb n max_clients && takes (get_or server.client_queues n (pos 0))
      then some (
        server,
        (record { queue = get_or server.client_queues n (pos 0); mtype = mtype; content = content })
            ∷ [],
      )
      else none

  -- The server with the queue of the client that comes next.
  abbrev pub registered : Server → CString → Server
  registered server queue_name = record server {
    client_queues = set server.client_queues server.client_idx (mq_open queue_name);
    client_idx = server.client_idx + 1;
  }

  -- `none` is the assertion, or the write behind the end of `client_queues`.
  abbrev pub handle_register : Server → ℤ → CString → Option (Server × List Response)
  handle_register server (pos n) queue_name = none
  handle_register server (negsuc n) queue_name =
      if n == 0 && ltb server.client_idx max_clients
      then send_to (registered server queue_name) (pos server.client_idx) register_resp
          (int_content (pos server.client_idx))
      else none

  -- A text that does not fit the content of a message has no answer.
  abbrev pub handle_mirror : Server → ℤ → CString → Option (Server × List Response)
  handle_mirror server sender_id text =
      if ltb (length text) content_sz
      then send_to server sender_id mirror_resp (text_content (mirror_text text))
      else none

  -- The result, where there is one, is sent.
  abbrev pub send_result : Server → ℤ → Option ℤ → Option (Server × List Response)
  send_result server sender_id none = none
  send_result server sender_id (some result) =
      send_to server sender_id calc_resp (int_content result)

  abbrev pub handle_calc : Server → ℤ → ArithOp → ℤ → ℤ → Option (Server × List Response)
  handle_calc server sender_id op arg1 arg2 = send_result server sender_id (calculate op arg1 arg2)

  abbrev pub handle_time : Server → ℤ → Option (Server × List Response)
  handle_time server sender_id =
      if ltb (length date) content_sz
      then send_to server sender_id time_resp (text_content date)
      else none

  -- STOP: the queue of the client is closed, and its entry set to -1.
  abbrev pub handle_stop : Server → ℤ → Option (Server × List Response)
  handle_stop server (negsuc n) = none
  handle_stop server (pos n) =
      if ltb n max_clients
      then some (
        record server {
          client_queues = set server.client_queues n (negsuc 0);
          closed = server.closed ++ get_or server.client_queues n (pos 0) ∷ [];
        },
        [],
      )
      else none

  -- The `switch` of `receive_loop`.
  abbrev pub switch : Server → ℤ → Request → Option (Server × List Response)
  switch server sender_id (register_req queue_name) = handle_register server sender_id queue_name
  switch server sender_id (mirror_req text) = handle_mirror server sender_id text
  switch server sender_id (calc_req op arg1 arg2) = handle_calc server sender_id op arg1 arg2
  switch server sender_id time_req = handle_time server sender_id
  switch server sender_id end_req = some (set_nonblock server, [])
  switch server sender_id stop_req = handle_stop server sender_id
  switch server sender_id unexpected = some (server, [])

-- What the server closes when it ends: the descriptors above 0.
abbrev pub onexit : List ℤ → List ℤ
onexit [] = []
onexit (pos zero ∷ queues) = onexit queues
onexit (pos (suc n) ∷ queues) = pos (suc n) ∷ onexit queues
onexit (negsuc n ∷ queues) = onexit queues

-- The request that a command of the user becomes; `none` for a command that sends nothing, or that ends
-- the client.
abbrev pub to_request : Command → Option Request
to_request (mirror text) = some (mirror_req text)
to_request (calc op arg1 arg2) = some (calc_req op arg1 arg2)
to_request time = some time_req
to_request end = none
to_request refused = none
to_request fault = none
