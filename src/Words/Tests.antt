-- ===== src/Words/Tests.antt =====
-- `tokenize` on small lines.
use agh_operating_systems.Base.{
  ◌≡◌, refl, inl, inr, List, [], ◌∷◌, ◌++◌, take, some, none, length, leb, if◌then◌else◌,
}
use agh_operating_systems.Base.Text.{CString}
use agh_operating_systems.Words.{tokenize, tokenize_unbounded}
use agh_operating_systems.Words.Layout.{
  IsLayout, render, words_of, tokenize-render, tokenize_unbounded-render,
}

-- " 1 + 2\n"
abbrev items : List (CString × CString)
items = (49 ∷ [], 32 ∷ []) ∷ (43 ∷ [], 32 ∷ []) ∷ (50 ∷ [], 10 ∷ []) ∷ []

items-IsLayout : IsLayout items
items-IsLayout = (
  λ e. cc,
  (refl, tt),
  (refl, tt),
  inr (λ e. cc),
  (
    (λ e. cc),
    (refl, tt),
    (refl, tt),
    inr (λ e. cc),
    ((λ e. cc), (refl, tt), (refl, tt), inl refl, tt),
  ),
)

tokenize_test :
    tokenize 5 (32 ∷ 49 ∷ 32 ∷ 43 ∷ 32 ∷ 50 ∷ 10 ∷ []) ≡ (49 ∷ []) ∷ (43 ∷ []) ∷ (50 ∷ []) ∷ []
unfolding tokenize
tokenize_test = refl

tokenize-render_example : tokenize 2 ((32 ∷ []) ++ render items) ≡ take 2 (words_of items)
tokenize-render_example = tokenize-render 2 (32 ∷ []) items (refl, tt) items-IsLayout

tokenize_unbounded-render_run :
    tokenize_unbounded 5 ((32 ∷ []) ++ render items)
    ≡ (if leb (length (words_of items)) 6 then some (words_of items) else none)
tokenize_unbounded-render_run =
    tokenize_unbounded-render 5 (32 ∷ []) items (refl, tt) items-IsLayout
