-- ===== src/Records/Sort.antt =====
-- `sort` of lab2/GeislerWojciech/cw02/zad1/main.c against the order of its specification.
use native.Mathlib.Nat.{mul-le-mul_right}
use agh_operating_systems.Base.{
  ℕ, zero, suc, ◌+◌, ◌-◌, ◌*◌, ◌<◌, ◌≤◌, ◌≡◌, true, refl, ap, some, List, [], ◌∷◌, ◌++◌, length,
  ltb, get_elem?, set, take, drop, arith, Bool-cases, inl, inr, take-append-drop, length-take,
}
use agh_operating_systems.Base.Int.{negsuc}
use agh_operating_systems.Records.{
  Record, File, key, file_read, file_write, file_seek, make_room, insert_next, sort_from, sort,
}
use agh_operating_systems.Records.Insertion.{
  rev_append, insert_reversed, length-insert_reversed, insert_all, insert_all-Descending,
  rev_append-Ascending, with_key, with_key-insert_all, Ascending,
}

length-rev_append : (bs ys : List Record) → length (rev_append bs ys) ≡ length bs + length ys
length-rev_append [] ys = omega arith
length-rev_append (b ∷ bs) ys = omega (arith, length-rev_append bs (b ∷ ys))

get_elem?-rev_append :
    (bs ys : List Record) (i j : ℕ)
    → j ≡ length bs + i
    → get_elem? (rev_append bs ys) j ≡ get_elem? ys i
get_elem?-rev_append [] ys i j h = ap (get_elem? ys) (omega arith)
get_elem?-rev_append (b ∷ bs) ys i j h = get_elem?-rev_append bs (b ∷ ys) (suc i) j (omega arith)

set-rev_append :
    (bs ys : List Record) (i j : ℕ) (v : Record)
    → j ≡ length bs + i
    → set (rev_append bs ys) j v ≡ rev_append bs (set ys i v)
set-rev_append [] ys i j v h = ap (λ k. set ys k v) (omega arith)
set-rev_append (b ∷ bs) ys i j v h = set-rev_append bs (b ∷ ys) (suc i) j v (omega arith)

-- A file at an offset.
abbrev at : List Record → ℕ → File
at content offset = record { content = content; offset = offset }

read_back :
    (b : Record) (bs ys : List Record)
    → file_read (file_seek (at (rev_append (b ∷ bs) ys) (length (b ∷ bs))) (negsuc 0))
      ≡ (some b, at (rev_append (b ∷ bs) ys) (length (b ∷ bs)))
unfolding file_read file_seek
read_back b bs ys = ground (arith, get_elem?-rev_append bs (b ∷ ys) 0 (length bs))

write_at :
    (record_size : ℕ) (bs : List Record) (g : Record) (ys : List Record) (v : Record)
    → file_write record_size (at (rev_append bs (g ∷ ys)) (length bs)) v
      ≡ at (rev_append bs (v ∷ ys)) (length bs + 1)
unfolding file_write
write_at record_size bs g ys v =
    ground (arith, set-rev_append bs (g ∷ ys) 0 (length bs) v, length-rev_append bs (g ∷ ys))

move_right :
    (record_size : ℕ) (b : Record) (bs : List Record) (g : Record) (ys : List Record)
    → file_seek
        (file_write record_size (at (rev_append (b ∷ bs) (g ∷ ys)) (length (b ∷ bs))) b)
        (negsuc 1)
      ≡ at (rev_append bs (b ∷ b ∷ ys)) (length bs)
unfolding file_seek
move_right record_size b bs g ys = rw (write_at record_size (b ∷ bs) g ys b) (ground arith)

make_room-found :
    (record_size : ℕ) (c : Record) (bs : List Record) (g : Record) (ys : List Record)
    → 2 * record_size < 2147483648
    → (ls : List Record) × (g' : Record) × (ys' : List Record) × (make_room true record_size
          (length bs)
          c
          (at (rev_append bs (g ∷ ys)) (length bs))
        ≡ some (length ls, at (rev_append ls (g' ∷ ys')) (length ls)))
      × (rev_append ls (c ∷ ys') ≡ rev_append (insert_reversed c bs) ys)
      × (length ls ≤ length bs)
unfolding make_room
make_room-found record_size c [] g ys small = ([], g, ys, refl, refl, omega arith)
make_room-found record_size c (b ∷ bs) g ys small = elim (Bool-cases (ltb (key c) (key b))) [
  | inl less ↦
      let (ls, g', ys', room, done, le) = make_room-found record_size c bs b (b ∷ ys) small in
      (
        ls,
        g',
        ys',
        ground (arith, room, read_back b bs (g ∷ ys), move_right record_size b bs g ys),
        ground (arith, done),
        omega arith,
      )
  | inr other ↦ (b ∷ bs, g, ys, ground (arith, read_back b bs (g ∷ ys)), ground arith, omega arith)
]

insert_next-found :
    (record_size : ℕ) (x : Record) (bs xs : List Record)
    → 2 * record_size < 2147483648
    → ((m : ℕ) → m ≤ length bs → m * record_size < 2147483648)
    → insert_next true record_size (length bs) (at (rev_append bs (x ∷ xs)) (length bs))
      ≡ some (at (rev_append (insert_reversed x bs) xs) (length bs + 1))
unfolding insert_next file_seek file_read
insert_next-found record_size x bs xs small all =
    let (ls, g, ys, room, done, le) = make_room-found record_size x bs x xs small in
    ground (
      arith,
      all (length bs + 1 - (length ls + 1)) (omega arith),
      room,
      done,
      get_elem?-rev_append bs (x ∷ xs) 0 (length bs),
      write_at record_size ls g ys x,
    )

sort_from-found :
    (record_size : ℕ) (xs rest bs : List Record) (i : ℕ)
    → i ≡ length bs
    → 2 * record_size < 2147483648
    → ((m : ℕ) → m ≤ length bs + length xs → m * record_size < 2147483648)
    → sort_from true record_size (length xs) i (at (rev_append bs (xs ++ rest)) i)
      ≡ some (at (rev_append (insert_all xs bs) rest) (i + length xs))
unfolding sort_from
sort_from-found record_size [] rest bs i h small all = ground arith
sort_from-found record_size (x ∷ xs) rest bs i h small all = ground (
  arith,
  insert_next-found record_size x bs (xs ++ rest) small (λ m l. all m (omega arith)),
  length-insert_reversed x bs,
  sort_from-found record_size xs rest (insert_reversed x bs) (i + 1)
      (omega (arith, length-insert_reversed x bs)) small
      (λ m l. all m (omega (arith, length-insert_reversed x bs))),
)

rev_append-append : (bs ys zs : List Record) → rev_append bs (ys ++ zs) ≡ rev_append bs ys ++ zs
rev_append-append [] ys zs = refl
rev_append-append (b ∷ bs) ys zs = rev_append-append bs (b ∷ ys) zs

product_below : (m n k : ℕ) → m ≤ n → n * k < 2147483648 → m * k < 2147483648
product_below m n k l h = omega (arith, mul-le-mul_right k l)

-- With system calls, `sort` of a file that has at least `n` records, which are less than 2^31 bytes together,
-- always ends without a failed assertion: the first `n` records are sorted by their first byte, those with
-- the same first byte stand in the order in which they stood, so that none is lost or doubled, and the rest
-- of the file is as it was.
pub sort_lem :
    (record_size n : ℕ) (content : List Record)
    → n ≤ length content
    → n * record_size < 2147483648
    → (ys : List Record) × (sort content n record_size true ≡ some (ys ++ drop n content))
      × Ascending ys
      × ((k : ℕ) → with_key k ys ≡ with_key k (take n content))
unfolding sort
sort_lem record_size zero content h fit = ([], ground arith, tt, λ k. refl)
sort_lem record_size (suc n) [] h fit = absurd (omega arith)
sort_lem record_size (suc zero) (x ∷ xs) h fit = (x ∷ [], ground arith, (tt, tt), λ k. refl)
sort_lem record_size (suc (suc k)) (x ∷ xs) h fit =
    let n = suc k in
    let below : (m : ℕ) → m ≤ suc n → m * record_size < 2147483648 =
      λ m l. product_below m (suc n) record_size l fit in
    let ys = insert_all (take n xs) (x ∷ []) in
    (
      rev_append ys [],
      ground (
        arith,
        sort_from-found record_size (take n xs) (drop n xs) (x ∷ []) 1 refl (below 2 (omega arith))
            (λ m l. below m (omega (arith, length-take n xs))),
        take-append-drop n xs,
        length-take n xs,
        rev_append-append ys [] (drop n xs),
      ),
      rev_append-Ascending ys (insert_all-Descending (take n xs) (x ∷ []) (tt, tt)),
      λ k. with_key-insert_all k (take n xs) (x ∷ []),
    )
