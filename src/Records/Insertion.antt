-- ===== src/Records/Insertion.antt =====
-- The order that `sort` of lab2/GeislerWojciech/cw02/zad1/main.c makes: records by their first byte,
-- those with the same byte as they were. The records that are in order already are kept reversed, since
-- `sort` goes through them from the end.
use agh_operating_systems.Base.{
  ℕ, suc, ◌≤◌, ◌<◌, ◌≡◌, refl, ◌∙◌, ap, List, [], ◌∷◌, length, ltb, ◌==◌, if◌then◌else◌, arith,
}
use agh_operating_systems.Records.{Record, key}

abbrev pub rev_append : List Record → List Record → List Record
rev_append [] ys = ys
rev_append (x ∷ xs) ys = rev_append xs (x ∷ ys)

-- `current` at its place among reversed records.
abbrev pub insert_reversed : Record → List Record → List Record
insert_reversed c [] = c ∷ []
insert_reversed c (b ∷ bs) =
    let rest = insert_reversed c bs in if ltb (key c) (key b) then b ∷ rest else c ∷ b ∷ bs

abbrev pub insert_all : List Record → List Record → List Record
insert_all [] bs = bs
insert_all (x ∷ xs) bs = insert_all xs (insert_reversed x bs)

abbrev pub Above : Record → List Record → Type 0
Above y [] = Unit
Above y (x ∷ xs) = key x ≤ key y

abbrev pub Descending : List Record → Type 0
Descending [] = Unit
Descending (x ∷ xs) = Above x xs × Descending xs

abbrev pub Below : Record → List Record → Type 0
Below x [] = Unit
Below x (y ∷ ys) = key x ≤ key y

-- Sorted by the first byte.
abbrev pub Ascending : List Record → Type 0
Ascending [] = Unit
Ascending (x ∷ xs) = Below x xs × Ascending xs

-- The records with a given first byte, in order.
abbrev pub with_key : ℕ → List Record → List Record
with_key k [] = []
with_key k (x ∷ xs) = let rest = with_key k xs in if key x == k then x ∷ rest else rest

pub length-insert_reversed :
    (c : Record) (bs : List Record) → length (insert_reversed c bs) ≡ suc (length bs)
length-insert_reversed c [] = refl
length-insert_reversed c (b ∷ bs) = ground (arith, length-insert_reversed c bs)

insert_reversed-Above :
    (c y : Record) (bs : List Record) → key c ≤ key y → Above y bs → Above y (insert_reversed c bs)
insert_reversed-Above c y [] h k = h
insert_reversed-Above c y (b ∷ bs) h k = ground arith

insert_reversed-Descending :
    (c : Record) (bs : List Record) → Descending bs → Descending (insert_reversed c bs)
insert_reversed-Descending c [] h = (tt, tt)
insert_reversed-Descending c (b ∷ bs) (above, h) =
    ground (arith, insert_reversed-Above c b bs, insert_reversed-Descending c bs h)

pub insert_all-Descending : (xs bs : List Record) → Descending bs → Descending (insert_all xs bs)
insert_all-Descending [] bs h = h
insert_all-Descending (x ∷ xs) bs h =
    insert_all-Descending xs (insert_reversed x bs) (insert_reversed-Descending x bs h)

rev_append-Ascending_cons :
    (bs : List Record) (y : Record) (ys : List Record)
    → Above y bs
    → Descending bs
    → Ascending (y ∷ ys)
    → Ascending (rev_append bs (y ∷ ys))
rev_append-Ascending_cons [] y ys a h k = k
rev_append-Ascending_cons (b ∷ bs) y ys a (above, h) k =
    rev_append-Ascending_cons bs b (y ∷ ys) above h (a, k)

pub rev_append-Ascending : (bs : List Record) → Descending bs → Ascending (rev_append bs [])
rev_append-Ascending [] h = tt
rev_append-Ascending (b ∷ bs) (above, h) = rev_append-Ascending_cons bs b [] above h (tt, tt)

with_key-rev_append :
    (k : ℕ) (bs ys zs : List Record)
    → with_key k ys ≡ with_key k zs
    → with_key k (rev_append bs ys) ≡ with_key k (rev_append bs zs)
with_key-rev_append k [] ys zs h = h
with_key-rev_append k (b ∷ bs) ys zs h =
    with_key-rev_append k bs (b ∷ ys) (b ∷ zs) (ap (λ r. if key b == k then b ∷ r else r) h)

with_key_swap :
    (k : ℕ) (c b : Record) (ys : List Record)
    → key c < key b
    → with_key k (c ∷ b ∷ ys) ≡ with_key k (b ∷ c ∷ ys)
with_key_swap k c b ys h = ground arith

-- Among the records with one key, the inserted one stands after those that were in order.
with_key-insert_reversed :
    (k : ℕ) (c : Record) (bs ys : List Record)
    → with_key k (rev_append (insert_reversed c bs) ys) ≡ with_key k (rev_append bs (c ∷ ys))
with_key-insert_reversed k c [] ys = refl
with_key-insert_reversed k c (b ∷ bs) ys = ground (
  arith,
  with_key-insert_reversed k c bs (b ∷ ys),
  with_key-rev_append k bs (c ∷ b ∷ ys) (b ∷ c ∷ ys),
  with_key_swap k c b ys,
)

pub with_key-insert_all :
    (k : ℕ) (xs bs : List Record)
    → with_key k (rev_append (insert_all xs bs) []) ≡ with_key k (rev_append bs xs)
with_key-insert_all k [] bs = refl
with_key-insert_all k (x ∷ xs) bs =
    with_key-insert_all k xs (insert_reversed x bs) ∙ with_key-insert_reversed k x bs xs
