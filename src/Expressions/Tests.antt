-- ===== src/Expressions/Tests.antt =====
-- The expression "7 / 2" at a server of lab10/GeislerWojciech/cw10/zad1 with one client.
use agh_operating_systems.Base.{
  ℕ, ◌%◌, ◌<◌, ◌≡◌, refl, true, false, some, List, [], ◌∷◌, replicate, get_or, arith, inl, inr,
}
use agh_operating_systems.Base.Int.{ℤ, pos}
use agh_operating_systems.Base.Text.{CString, str_eq}
use agh_operating_systems.Queues.{char_to_op, calculate, div}
use agh_operating_systems.Registry.{
  Client, Registry, is_free, max_clients, no_client, find_client_by_name,
}
use agh_operating_systems.Registry.Names.{IsValid, free-WellFormed}
use agh_operating_systems.Words.{tokenize}
use agh_operating_systems.Words.Layout.{IsLayout}
use agh_operating_systems.Expressions.{
  ArithReq, requested, usage, unknown_operator, read_line, listen, result, arith_msg, do_register,
  refused,
}
use agh_operating_systems.Expressions.Answer.{expression_answered}

abbrev atoi : CString → ℤ
atoi [] = pos 0
atoi (c ∷ s) = pos (c % 16)

abbrev ann : Client
ann = record { name = 97 ∷ []; socket = 8; responsive = true }

abbrev with_ann : Registry
with_ann = record { clients = ann ∷ replicate 19 no_client; client_count = pos 1 }

with_ann-IsValid : IsValid with_ann
unfolding find_client_by_name str_eq
with_ann-IsValid = record {
  len = refl;
  named = (refl, λ h. refl, free-WellFormed 19);
  count = refl;
}

abbrev line : List (CString × CString)
line = (55 ∷ [], 32 ∷ []) ∷ (47 ∷ [], 32 ∷ []) ∷ (50 ∷ [], 10 ∷ []) ∷ []

line-IsLayout : IsLayout line
line-IsLayout = (
  λ e. cc,
  (refl, tt),
  (refl, tt),
  inr (λ e. cc),
  (
    (λ e. cc),
    (refl, tt),
    (refl, tt),
    inr (λ e. cc),
    ((λ e. cc), (refl, tt), (refl, tt), inl refl, tt),
  ),
)

-- The number is used up by a line with an unknown operator, but not by one that is too short.
read_tests :
    (read_line atoi 0 (55 ∷ 32 ∷ 47 ∷ []) 4 with_ann ≡ (some usage, 4))
    × (read_line atoi 0 (55 ∷ 32 ∷ 37 ∷ 32 ∷ 50 ∷ []) 4 with_ann ≡ (some unknown_operator, 5))
    × (do_register 0x33 ≡ refused)
unfolding read_line do_register tokenize char_to_op
read_tests = (refl, refl, refl)

expression_answered_example :
    (c : Client) × (req : ArithReq) × (read_line atoi 13
        (55 ∷ 32 ∷ 47 ∷ 32 ∷ 50 ∷ 10 ∷ [])
        4
        with_ann
      ≡ (some (requested c.socket req), 5))
    × ((j : ℕ) × (j < max_clients) × (get_or with_ann.clients j no_client ≡ c))
    × (is_free c ≡ false)
    × (listen (arith_msg req) ≡ some (some (result (record { id = 4; result = pos 3 }))))
unfolding char_to_op calculate
expression_answered_example =
    expression_answered atoi 13 4 with_ann [] (55 ∷ []) (32 ∷ []) (47 ∷ []) (32 ∷ []) (50 ∷ [])
      (10 ∷ []) div (pos 3) with_ann-IsValid (omega arith) tt line-IsLayout refl refl
