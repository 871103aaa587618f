-- ===== src/Words.antt =====
-- `tokenize`, which splits a line on whitespace: the bounded one of
-- lab10/GeislerWojciech/cw10/zad1/server.c and the unbounded one of
-- lab5/GeislerWojciech/cw05/zad1/main.c and lab6/GeislerWojciech/cw06/zad1/client.c.
pub mod Layout
mod Tests
use agh_operating_systems.Base.{
  ℕ, zero, suc, Bool, true, false, ◌||◌, ◌==◌, Option, none, some, List, [], ◌∷◌, length,
}
use agh_operating_systems.Base.Text.{CString}

-- A byte of `WHITESPACE`.
abbrev pub is_space : ℕ → Bool
is_space c = c == 32 || c == 13 || c == 10 || c == 9

-- `string += strspn(string, WHITESPACE)`
pub skip_spaces : CString → CString
skip_spaces [] = []
skip_spaces (c ∷ s) = elim (is_space c) [ true ↦ skip_spaces s | false ↦ c ∷ s ]

-- The first `strcspn(string, WHITESPACE)` bytes, and what is behind them.
pub first_word : CString → CString
first_word [] = []
first_word (c ∷ s) = elim (is_space c) [ true ↦ [] | false ↦ c ∷ first_word s ]

pub after_word : CString → CString
after_word [] = []
after_word (c ∷ s) = elim (is_space c) [ true ↦ c ∷ s | false ↦ after_word s ]

-- The loop, with room for `room` more tokens. On fuel: a round consumes at least one byte.
pub split_words : ℕ → ℕ → CString → List CString
unfolding skip_spaces first_word after_word
split_words zero room s = []
split_words (suc fuel) zero s = []
split_words (suc fuel) (suc room) [] = []
split_words (suc fuel) (suc room) (c ∷ s) =
    first_word (c ∷ s) ∷ split_words fuel room (skip_spaces (after_word (c ∷ s)))

unfoldable pub tokenize : ℕ → CString → List CString
unfolding split_words
tokenize max_tokens s = split_words (length s) max_tokens (skip_spaces s)

-- Without the bound on the tokens: `none` is the write behind the array of `max_tokens + 1`.
pub split_all : ℕ → ℕ → CString → Option (List CString)
unfolding skip_spaces first_word after_word
split_all zero room s = some []
split_all (suc fuel) room [] = some []
split_all (suc fuel) zero (c ∷ s) = none
split_all (suc fuel) (suc room) (c ∷ s) =
    elim (split_all fuel room (skip_spaces (after_word (c ∷ s)))) [
      | none ↦ none
      | some words ↦ some (first_word (c ∷ s) ∷ words)
    ]

-- A token is here the bytes that `strncpy` copies. They fill the memory that is allocated for it, without a
-- terminator: a later use of a token as a string reads on behind them, which is not modelled.
unfoldable pub tokenize_unbounded : ℕ → CString → Option (List CString)
unfolding split_all
tokenize_unbounded max_tokens s = split_all (length s) (suc max_tokens) (skip_spaces s)
