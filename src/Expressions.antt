-- ===== src/Expressions.antt =====
-- The arithmetic expressions of lab10/GeislerWojciech/cw10/zad1: the `reader` of server.c, which makes a
-- request of a line and sends it to a client, and the loop of client.c, which answers it. The words of a
-- line, the choice of the client and the arithmetic are those of Words, Registry and Queues (the `switch`
-- of `calculate` is that of the other server, and `char_to_op` accepts the same four characters).
pub mod Answer
mod Tests
use agh_operating_systems.Base.{
  ℕ, ◌+◌, ◌==◌, Option, none, some, List, [], ◌∷◌, length, ltb, get_or, if◌then◌else◌,
}
use agh_operating_systems.Base.Int.{ℤ}
use agh_operating_systems.Base.Text.{CString}
use agh_operating_systems.Queues.{ArithOp, calculate, char_to_op, first_char}
use agh_operating_systems.Registry.{Client, Registry, get_random_client}
use agh_operating_systems.Words.{tokenize}

abbrev pub max_tokens : ℕ
max_tokens = 5

pub record ArithReq : Type 0 where
  pub id : ℕ
  pub op : ArithOp
  pub arg1 : ℤ
  pub arg2 : ℤ

pub record ArithResp : Type 0 where
  pub id : ℕ
  pub result : ℤ

-- What `reader` does with a line: two messages to the user, no client for a request, or a request to a
-- socket.
pub data Reading : Type 0 where
  usage unknown_operator nobody : Reading
  requested : (socket : ℕ) → (req : ArithReq) → Reading

-- The request is sent to the client that was chosen; `none` is a choice that goes on for ever.
pub send_request : ArithReq → Option (Option Client) → Option Reading
send_request req none = none
send_request req (some none) = some nobody
send_request req (some (some c)) = some (requested c.socket req)

-- A round of `reader` with the next `op_id`, and what it leaves there. `atoi` is the library's, and `rand`
-- the value of `rand()`.
pub read_line : (CString → ℤ) → ℕ → CString → ℕ → Registry → Option Reading × ℕ
unfolding send_request
read_line atoi rand line op_id r =
    let toks = tokenize max_tokens line in
    if ltb (length toks) 3
    then (some usage, op_id)
    else elim (char_to_op (first_char (get_or toks 1 []))) [
      | none ↦ (some unknown_operator, op_id + 1)
      | some op ↦ (
        send_request
            (record {
              id = op_id;
              op = op;
              arg1 = atoi (get_or toks 0 []);
              arg2 = atoi (get_or toks 2 []);
            })
            (get_random_client rand r),
        op_id + 1,
      )
    ]

-- The messages that a client receives, and those that it sends.
pub data Incoming : Type 0 where
  ping : Incoming
  arith_msg : ArithReq → Incoming
  unexpected : Incoming

pub data Outgoing : Type 0 where
  ping_back : Outgoing
  result : ArithResp → Outgoing

-- A round of `do_listen`; the outer `none` is the undefined arithmetic of `calculate`, the inner one a
-- message without an answer.
pub listen : Incoming → Option (Option Outgoing)
listen ping = some (some ping_back)
listen (arith_msg req) = elim (calculate req.op req.arg1 req.arg2) [
  | none ↦ none
  | some value ↦ some (some (result (record { id = req.id; result = value })))
]
listen unexpected = some none

-- The answers of `do_register`.
pub data Registering : Type 0 where
  registered refused odd_response : Registering

pub do_register : ℕ → Registering
do_register msg_type =
    if msg_type == 0x22 then registered else if msg_type == 0x33 then refused else odd_response
