-- ===== src/Words/Layout.antt =====
-- Every line is laid out as words with whitespace between them; `tokenize` finds those words.
use mathlib.Core.Path.{ap₂}
use agh_operating_systems.Base.{
  ℕ, zero, suc, ◌≤◌, ◌≡◌, ◌≢◌, refl, ap, ◌∙◌, ◌⊎◌, inl, inr, Bool, true, false, none, some, List,
  [], ◌∷◌, ◌++◌, length, length-append, take, arith, if◌then◌else◌, leb,
}
use agh_operating_systems.Base.Text.{CString}
use agh_operating_systems.Words.{
  is_space, skip_spaces, first_word, after_word, split_words, tokenize, split_all,
  tokenize_unbounded,
}

-- All bytes are, or are not, whitespace.
abbrev pub Spaces : Bool → CString → Type 0
Spaces b [] = Unit
Spaces b (c ∷ s) = (is_space c ≡ b) × Spaces b s

abbrev pub starts_with_space : CString → Bool
starts_with_space [] = true
starts_with_space (c ∷ s) = is_space c

-- The text of words, each with the whitespace behind it.
abbrev pub render : List (CString × CString) → CString
render [] = []
render ((word, gap) ∷ items) = word ++ (gap ++ render items)

abbrev pub words_of : List (CString × CString) → List CString
words_of [] = []
words_of ((word, gap) ∷ items) = word ∷ words_of items

-- Words are not empty, and so are the gaps, but for the last.
abbrev pub IsLayout : List (CString × CString) → Type 0
IsLayout [] = Unit
IsLayout ((word, gap) ∷ items) =
    (word ≢ []) × Spaces false word × Spaces true gap × ((items ≡ []) ⊎ (gap ≢ [])) × IsLayout items

skip-lead : (lead s : CString) → Spaces true lead → skip_spaces (lead ++ s) ≡ skip_spaces s
unfolding skip_spaces
skip-lead [] s h = refl
skip-lead (c ∷ lead) s h = ground (arith, skip-lead lead s h.1)

first_word-append :
    (word s : CString)
    → Spaces false word
    → starts_with_space s ≡ true
    → first_word (word ++ s) ≡ word
unfolding first_word
first_word-append [] [] h e = refl
first_word-append [] (c ∷ s) h e = ground arith
first_word-append (c ∷ word) s h e = ground (arith, first_word-append word s h.1)

after_word-append :
    (word s : CString) → Spaces false word → starts_with_space s ≡ true → after_word (word ++ s) ≡ s
unfolding after_word
after_word-append [] [] h e = refl
after_word-append [] (c ∷ s) h e = ground arith
after_word-append (c ∷ word) s h e = ground (arith, after_word-append word s h.1)

skip-render :
    (items : List (CString × CString)) → IsLayout items → skip_spaces (render items) ≡ render items
unfolding skip_spaces
skip-render [] h = refl
skip-render (([], gap) ∷ items) h = absurd (h.0 refl)
skip-render ((c ∷ word, gap) ∷ items) h = ground arith

gap_starts :
    (gap : CString) (items : List (CString × CString))
    → Spaces true gap
    → (items ≡ []) ⊎ (gap ≢ [])
    → starts_with_space (gap ++ render items) ≡ true
gap_starts [] items h (inl e) = rw e
gap_starts [] items h (inr n) = absurd (n refl)
gap_starts (c ∷ gap) items h o = h.0

split_words-render :
    (items : List (CString × CString)) (fuel room : ℕ)
    → IsLayout items
    → length (render items) ≤ fuel
    → split_words fuel room (render items) ≡ take room (words_of items)
unfolding split_words
split_words-render [] zero zero h l = refl
split_words-render [] zero (suc room) h l = refl
split_words-render [] (suc fuel) zero h l = refl
split_words-render [] (suc fuel) (suc room) h l = refl
split_words-render (([], gap) ∷ items) fuel room h l = absurd (h.0 refl)
split_words-render ((c ∷ word, gap) ∷ items) zero room h l = absurd (omega arith)
split_words-render ((c ∷ word, gap) ∷ items) (suc fuel) zero h l = refl
split_words-render ((c ∷ word, gap) ∷ items) (suc fuel) (suc room) (n, w, g, o, h) l =
    ap₂ ◌∷◌ (first_word-append (c ∷ word) (gap ++ render items) w (gap_starts gap items g o)) (
      ap (λ t. split_words fuel room (skip_spaces t))
        (after_word-append (c ∷ word) (gap ++ render items) w (gap_starts gap items g o))
      ∙ ap (split_words fuel room) (skip-lead gap (render items) g ∙ skip-render items h)
      ∙ split_words-render items fuel room h (
          omega
            (arith, length-append word (gap ++ render items), length-append gap (render items))))

-- Of a line that starts with any whitespace and is laid out as words with gaps, `tokenize` gives the
-- words, in order, as many as there is room for.
pub tokenize-render :
    (max_tokens : ℕ) (lead : CString) (items : List (CString × CString))
    → Spaces true lead
    → IsLayout items
    → tokenize max_tokens (lead ++ render items) ≡ take max_tokens (words_of items)
unfolding tokenize
tokenize-render n lead items s h =
    ap (split_words (length (lead ++ render items)) n)
      (skip-lead lead (render items) s ∙ skip-render items h)
    ∙ split_words-render items (length (lead ++ render items)) n h
        (omega (arith, length-append lead (render items)))

extend :
    (c : ℕ) (lead : CString) (items : List (CString × CString))
    → is_space c ≡ false
    → Spaces true lead
    → IsLayout items
    → (items' : List (CString × CString)) × IsLayout items'
      × (c ∷ (lead ++ render items) ≡ render items')
extend c [] [] e s h = ((c ∷ [], []) ∷ [], ((λ q. cc), (e, tt), tt, inl refl, tt), refl)
extend c [] ((word, gap) ∷ items) e s (n, w, g, o, h) =
    ((c ∷ word, gap) ∷ items, ((λ q. cc), (e, w), g, o, h), refl)
extend c (d ∷ lead) items e s h =
    ((c ∷ [], d ∷ lead) ∷ items, ((λ q. cc), (e, tt), s, inr (λ q. cc), h), refl)

-- Every line is whitespace followed by words with whitespace behind them.
pub IsLayout-exists :
    (s : CString)
    → (lead : CString) × (items : List (CString × CString)) × Spaces true lead
      × IsLayout items
      × (s ≡ lead ++ render items)
IsLayout-exists [] = ([], [], tt, tt, refl)
IsLayout-exists (c ∷ s) = by_head (is_space c) refl (IsLayout-exists s)
  where
    by_head :
        (b : Bool)
        → is_space c ≡ b
        → (lead : CString) × (items : List (CString × CString)) × Spaces true lead
          × IsLayout items
          × (s ≡ lead ++ render items)
        → (lead : CString) × (items : List (CString × CString)) × Spaces true lead
          × IsLayout items
          × (c ∷ s ≡ lead ++ render items)
    by_head true e (lead, items, sp, h, q) = (c ∷ lead, items, (e, sp), h, ap (λ t. c ∷ t) q)
    by_head false e (lead, items, sp, h, q) =
        let (items', h', q') = extend c lead items e sp h in
        ([], items', tt, h', ap (λ t. c ∷ t) q ∙ q')

split_all-render :
    (items : List (CString × CString)) (fuel room : ℕ)
    → IsLayout items
    → length (render items) ≤ fuel
    → split_all fuel room (render items)
      ≡ (if leb (length (words_of items)) room then some (words_of items) else none)
unfolding split_all
split_all-render [] zero zero h l = refl
split_all-render [] zero (suc room) h l = ground arith
split_all-render [] (suc fuel) zero h l = ground arith
split_all-render [] (suc fuel) (suc room) h l = ground arith
split_all-render (([], gap) ∷ items) fuel room h l = absurd (h.0 refl)
split_all-render ((c ∷ word, gap) ∷ items) zero room h l = absurd (omega arith)
split_all-render ((c ∷ word, gap) ∷ items) (suc fuel) zero h l = ground arith
split_all-render ((c ∷ word, gap) ∷ items) (suc fuel) (suc room) (n, w, g, o, h) l = ground (
  arith,
  first_word-append (c ∷ word) (gap ++ render items) w (gap_starts gap items g o),
  after_word-append (c ∷ word) (gap ++ render items) w (gap_starts gap items g o),
  skip-lead gap (render items) g,
  skip-render items h,
  split_all-render items fuel room h
      (omega (arith, length-append word (gap ++ render items), length-append gap (render items))),
)

-- The unbounded `tokenize` gives all the words of the line if the array has room for them, which is
-- one more than `max_tokens`, and otherwise writes behind the array.
pub tokenize_unbounded-render :
    (max_tokens : ℕ) (lead : CString) (items : List (CString × CString))
    → Spaces true lead
    → IsLayout items
    → tokenize_unbounded max_tokens (lead ++ render items)
      ≡ (if leb (length (words_of items)) (suc max_tokens) then some (words_of items) else none)
unfolding tokenize_unbounded
tokenize_unbounded-render n lead items s h =
    ap (split_all (length (lead ++ render items)) (suc n))
      (skip-lead lead (render items) s ∙ skip-render items h)
    ∙ split_all-render items (length (lead ++ render items)) (suc n) h
        (omega (arith, length-append lead (render items)))
