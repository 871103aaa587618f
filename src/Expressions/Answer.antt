-- ===== src/Expressions/Answer.antt =====
-- From a line that the user types at the server of lab10/GeislerWojciech/cw10/zad1 to the client's answer.
use agh_operating_systems.Base.{ℕ, ◌+◌, ◌<◌, ◌≡◌, false, some, [], ◌∷◌, ◌++◌, arith, get_or, true}
use agh_operating_systems.Base.Int.{ℤ}
use agh_operating_systems.Base.Text.{CString}
use agh_operating_systems.Queues.{ArithOp, calculate, char_to_op, first_char}
use agh_operating_systems.Registry.{Client, Registry, is_free, max_clients, no_client}
use agh_operating_systems.Registry.Names.{IsValid, live_count}
use agh_operating_systems.Registry.Random.{get_random_client_live}
use agh_operating_systems.Words.Layout.{Spaces, IsLayout, render, tokenize-render}
use agh_operating_systems.Expressions.{
  ArithReq, requested, read_line, send_request, listen, result, arith_msg, max_tokens,
}

-- A line of an operand, an operator and an operand, with any whitespace around them, becomes a request
-- with the next number to a client that is registered; the client answers it, under the same number, with
-- the result, where the arithmetic is defined.
pub expression_answered :
    (atoi : CString → ℤ) (rand op_id : ℕ) (r : Registry)
    (lead left gap operator gap' right gap'' : CString) (op : ArithOp) (value : ℤ)
    → IsValid r
    → 0 < live_count r.clients
    → Spaces true lead
    → IsLayout ((left, gap) ∷ (operator, gap') ∷ (right, gap'') ∷ [])
    → char_to_op (first_char operator) ≡ some op
    → calculate op (atoi left) (atoi right) ≡ some value
    → (c : Client) × (req : ArithReq) × (read_line atoi rand
          (lead ++ render ((left, gap) ∷ (operator, gap') ∷ (right, gap'') ∷ []))
          op_id
          r
        ≡ (some (requested c.socket req), op_id + 1))
      × ((j : ℕ) × (j < max_clients) × (get_or r.clients j no_client ≡ c))
      × (is_free c ≡ false)
      × (listen (arith_msg req) ≡ some (some (result (record { id = op_id; result = value }))))
unfolding read_line send_request listen
expression_answered atoi rand op_id r lead left gap operator gap' right gap'' op value v live s
      layout o calc =
    let (c, chosen, taken, slot) = get_random_client_live rand r v live in
    (
      c,
      record { id = op_id; op = op; arg1 = atoi left; arg2 = atoi right },
      ground (
        arith,
        tokenize-render max_tokens lead ((left, gap) ∷ (operator, gap') ∷ (right, gap'') ∷ []) s
            layout,
        o,
        chosen,
      ),
      slot,
      taken,
      ground (arith, calc),
    )
