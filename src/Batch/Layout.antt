-- ===== src/Batch/Layout.antt =====
-- What `tokenize` of lab3/GeislerWojciech/cw03/zad2/main.c finds in a line that is laid out with spaces.
use agh_operating_systems.Base.{
  ℕ, zero, suc, ◌<◌, ◌≡◌, ◌≢◌, refl, ap, sym, ◌∙◌, Option, some, List, [], ◌∷◌, ◌++◌, map, drop,
  length, replicate, if◌then◌else◌, ◌==◌, arith,
}
use agh_operating_systems.Base.Text.{CString}
use agh_operating_systems.Batch.{
  skip_leading, cut, count_from, starts_from, until_nul, text_at, cut_tokens, tokenize_line,
}

-- Neither a space nor the end of the string.
abbrev pub HasChars : CString → Type 0
HasChars [] = Unit
HasChars (c ∷ s) = (c ≢ 0) × (c ≢ 32) × HasChars s

abbrev pub IsWord : CString → Type 0
IsWord s = (0 < length s) × HasChars s

-- Words with one space and more before each, and `trailing` spaces behind the last.
abbrev pub lay : List (ℕ × CString) → ℕ → CString
lay [] trailing = replicate trailing 32
lay ((spaces, word) ∷ words) trailing = 32 ∷ replicate spaces 32 ++ (word ++ lay words trailing)

abbrev pub words_of : List (ℕ × CString) → List CString
words_of [] = []
words_of ((spaces, word) ∷ words) = word ∷ words_of words

abbrev pub AllWords : List (ℕ × CString) → Type 0
AllWords [] = Unit
AllWords ((spaces, word) ∷ words) = IsWord word × AllWords words

-- The texts of the tokens, without their positions.
abbrev texts : ℕ → CString → List CString
texts prev [] = []
texts prev (c ∷ s) =
    let rest = texts c s in
    if c == 0 then rest else if prev == 0 then until_nul (c ∷ s) ∷ rest else rest

drop-append : (pre rest : CString) → drop (length pre) (pre ++ rest) ≡ rest
drop-append [] rest = refl
drop-append (p ∷ pre) rest = drop-append pre rest

length-snoc : (pre : CString) (c : ℕ) → length (pre ++ c ∷ []) ≡ suc (length pre)
length-snoc [] c = refl
length-snoc (p ∷ pre) c = ap suc (length-snoc pre c)

snoc-append : (pre : CString) (c : ℕ) (s : CString) → (pre ++ c ∷ []) ++ s ≡ pre ++ c ∷ s
snoc-append [] c s = refl
snoc-append (p ∷ pre) c s = ap (λ l. p ∷ l) (snoc-append pre c s)

starts_from-texts :
    (pre : CString) (prev : ℕ) (s : CString)
    → map (text_at (pre ++ s)) (starts_from (length pre) prev s) ≡ texts prev s
starts_from-texts pre prev [] = refl
starts_from-texts pre prev (c ∷ s) = ground (
  arith,
  starts_from-texts (pre ++ c ∷ []) c s,
  snoc-append pre c s,
  length-snoc pre c,
  drop-append pre (c ∷ s),
)

abbrev HasNoNul : CString → Type 0
HasNoNul [] = Unit
HasNoNul (c ∷ s) = (c ≢ 0) × HasNoNul s

-- The first loop counts what the second one finds.
count_from-starts_from :
    (i prev : ℕ) (s : CString)
    → HasNoNul s
    → count_from prev s ≡ length (starts_from i prev (cut s))
count_from-starts_from i prev [] h = refl
count_from-starts_from i prev (c ∷ s) (h, more) =
    ground (arith, count_from-starts_from (suc i) c s more, count_from-starts_from (suc i) 0 s more)

cut-append : (s t : CString) → cut (s ++ t) ≡ cut s ++ cut t
cut-append [] t = refl
cut-append (c ∷ s) t = ap (λ l. (if c == 32 then 0 else c) ∷ l) (cut-append s t)

cut-HasChars : (s : CString) → HasChars s → cut s ≡ s
cut-HasChars [] h = refl
cut-HasChars (c ∷ s) (nul, space, more) = ground (arith, cut-HasChars s more)

texts-spaces : (k : ℕ) (s : CString) → texts 0 (cut (replicate k 32) ++ s) ≡ texts 0 s
texts-spaces zero s = refl
texts-spaces (suc k) s = texts-spaces k s

-- Behind a word the previous character makes no difference.
texts-lay_prev :
    (prev : ℕ) (words : List (ℕ × CString)) (t : ℕ)
    → texts prev (cut (lay words t)) ≡ texts 0 (cut (lay words t))
texts-lay_prev prev [] zero = refl
texts-lay_prev prev [] (suc t) = refl
texts-lay_prev prev ((k, w) ∷ words) t = refl

until_nul-lay : (words : List (ℕ × CString)) (t : ℕ) → until_nul (cut (lay words t)) ≡ []
until_nul-lay [] zero = refl
until_nul-lay [] (suc t) = refl
until_nul-lay ((k, w) ∷ words) t = refl

until_nul-word : (w s : CString) → HasChars w → until_nul s ≡ [] → until_nul (w ++ s) ≡ w
until_nul-word [] s h e = e
until_nul-word (c ∷ w) s (nul, space, more) e = ground (arith, until_nul-word w s more e)

texts-inside :
    (prev : ℕ) (w s : CString)
    → prev ≢ 0
    → HasChars w
    → ((p : ℕ) → texts p s ≡ texts 0 s)
    → texts prev (w ++ s) ≡ texts 0 s
texts-inside prev [] s ne h e = e prev
texts-inside prev (c ∷ w) s ne (nul, space, more) e = ground (arith, texts-inside c w s nul more e)

texts-word :
    (w : CString) (words : List (ℕ × CString)) (t : ℕ)
    → IsWord w
    → texts 0 (w ++ cut (lay words t)) ≡ w ∷ texts 0 (cut (lay words t))
texts-word [] words t (h, more) = absurd (omega arith)
texts-word (c ∷ w) words t (h, (nul, space, more)) = ground (
  arith,
  until_nul-word (c ∷ w) (cut (lay words t)) (nul, space, more) (until_nul-lay words t),
  texts-inside c w (cut (lay words t)) nul more (λ p. texts-lay_prev p words t),
)

texts-blank : (t : ℕ) → texts 0 (cut (replicate t 32)) ≡ []
texts-blank zero = refl
texts-blank (suc t) = texts-blank t

texts-lay :
    (words : List (ℕ × CString)) (t : ℕ)
    → AllWords words
    → texts 0 (cut (lay words t)) ≡ words_of words
texts-lay [] t h = texts-blank t
texts-lay ((k, w) ∷ words) t (word, more) =
    ap (texts 0) (cut-append (replicate k 32) (w ++ lay words t))
    ∙ texts-spaces k (cut (w ++ lay words t))
    ∙ ap (texts 0)
        (cut-append w (lay words t) ∙ ap (λ l. l ++ cut (lay words t)) (cut-HasChars w word.1))
    ∙ texts-word w words t word
    ∙ ap (λ l. w ∷ l) (texts-lay words t more)

HasNoNul-append : (s t : CString) → HasNoNul s → HasNoNul t → HasNoNul (s ++ t)
HasNoNul-append [] t h k = k
HasNoNul-append (c ∷ s) t (nul, more) k = (nul, HasNoNul-append s t more k)

HasNoNul-HasChars : (s : CString) → HasChars s → HasNoNul s
HasNoNul-HasChars [] h = tt
HasNoNul-HasChars (c ∷ s) (nul, space, more) = (nul, HasNoNul-HasChars s more)

HasNoNul-replicate : (k : ℕ) → HasNoNul (replicate k 32)
HasNoNul-replicate zero = tt
HasNoNul-replicate (suc k) = (λ e. omega arith, HasNoNul-replicate k)

HasNoNul-lay : (words : List (ℕ × CString)) (t : ℕ) → AllWords words → HasNoNul (lay words t)
HasNoNul-lay [] t h = HasNoNul-replicate t
HasNoNul-lay ((k, w) ∷ words) t (word, more) = (
  λ e. omega arith,
  HasNoNul-append (replicate k 32) (w ++ lay words t) (HasNoNul-replicate k)
      (HasNoNul-append w (lay words t) (HasNoNul-HasChars w word.1) (HasNoNul-lay words t more)),
)

skip_leading-replicate : (k : ℕ) (s : CString) → skip_leading (replicate k 32 ++ s) ≡ skip_leading s
skip_leading-replicate zero s = refl
skip_leading-replicate (suc k) s = skip_leading-replicate k s

length-map_text : (line : CString) (xs : List ℕ) → length (map (text_at line) xs) ≡ length xs
length-map_text line [] = refl
length-map_text line (x ∷ xs) = ap suc (length-map_text line xs)

same_tokens :
    {n m : ℕ} {x y : CString} {xs ys : List CString}
    → n ≡ m
    → x ≡ y
    → xs ≡ ys
    → ◌≡◌ {A = Option (ℕ × List CString)} (some (n, x ∷ xs)) (some (m, y ∷ ys))
same_tokens e f g = cc

skip_leading-char : (c : ℕ) (s : CString) → c ≢ 32 → skip_leading (c ∷ s) ≡ c ∷ s
skip_leading-char c s ne = ground arith

tokenize_line-word :
    (c : ℕ) (w : CString) (words : List (ℕ × CString)) (t : ℕ)
    → IsWord (c ∷ w)
    → AllWords words
    → tokenize_line ((c ∷ w) ++ lay words t)
      ≡ some (length ((c ∷ w) ∷ words_of words), (c ∷ w) ∷ words_of words)
tokenize_line-word c w words t (h, (nul, space, more)) all =
    let s = w ++ lay words t in
    let cut_s =
      cut-append w (lay words t) ∙ ap (λ l. l ++ cut (lay words t)) (cut-HasChars w more) in
    let rest =
      starts_from-texts (c ∷ []) c (cut s)
      ∙ ap (texts c) cut_s
      ∙ texts-inside c w (cut (lay words t)) nul more (λ p. texts-lay_prev p words t)
      ∙ texts-lay words t all in
    let first =
      ap (λ l. until_nul (c ∷ l)) cut_s
      ∙ until_nul-word (c ∷ w) (cut (lay words t)) (nul, space, more) (until_nul-lay words t) in
    let counted =
      count_from-starts_from 1 c s
        (HasNoNul-append w (lay words t) (HasNoNul-HasChars w more) (HasNoNul-lay words t all))
      ∙ sym (length-map_text (c ∷ cut s) (starts_from 1 c (cut s)))
      ∙ ap length rest in
    ap cut_tokens (skip_leading-char c s space) ∙ same_tokens (ap suc counted) first rest

-- A line of words without spaces, with any number of spaces in front, one or more between two words and any
-- number at the end, is cut into exactly these words, and `count`, which the array is allocated for, is their
-- number: the NULL behind the last token ends the array.
pub tokenize_line-lay :
    (leading : ℕ) (word : CString) (words : List (ℕ × CString)) (trailing : ℕ)
    → IsWord word
    → AllWords words
    → tokenize_line (replicate leading 32 ++ (word ++ lay words trailing))
      ≡ some (length (word ∷ words_of words), word ∷ words_of words)
tokenize_line-lay leading [] words trailing (h, chars) all = absurd (omega arith)
tokenize_line-lay leading (c ∷ w) words trailing is_word all =
    ap cut_tokens (skip_leading-replicate leading ((c ∷ w) ++ lay words trailing))
    ∙ tokenize_line-word c w words trailing is_word all
