-- ===== src/Barber/Array.antt =====
-- The queue of lab7/GeislerWojciech/cw07/zad1 as the code keeps it: an array of `MAX_QUEUE` process ids in
-- shared memory and `queue_length`. The entries of the array are integers, as -1 stands for no client.
use agh_operating_systems.Base.{
  ℕ, zero, suc, ◌-◌, ◌≤◌, ◌<◌, ◌≡◌, refl, ap, List, [], ◌∷◌, ◌++◌, length, take, get_or, set,
  replicate, length-set, if◌then◌else◌, ◌==◌, arith, ◌∙◌, ◌⊎◌, inl,
}
use agh_operating_systems.Base.Int.{ℤ, negsuc}

pub record ArrayQueue : Type 0 where
  pub queue : List ℤ
  pub queue_length : ℕ

abbrev pub max_queue : ℕ
max_queue = 50

-- What `main` of barber.c writes.
abbrev pub empty_queue : ArrayQueue
empty_queue = record { queue = replicate max_queue (negsuc 0); queue_length = 0 }

abbrev pub peek_queue : ArrayQueue → ℤ
peek_queue q = if q.queue_length == 0 then negsuc 0 else get_or q.queue 0 (negsuc 0)

-- The loop of `pop_client`, from index `i` on, `k` times.
abbrev pub shift : ℕ → ℕ → List ℤ → List ℤ
shift zero i xs = xs
shift (suc k) i xs = shift k (suc i) (set xs i (get_or xs (suc i) (negsuc 0)))

-- The client and the queue that is left.
abbrev pub pop_client : ArrayQueue → ℤ × ArrayQueue
pop_client q = if q.queue_length == 0 then (negsuc 0, q) else (
  get_or q.queue 0 (negsuc 0),
  record { queue = shift (q.queue_length - 1) 0 q.queue; queue_length = q.queue_length - 1 },
)

-- `push_client` of client.c by process `pid`. A write behind the array is left out.
abbrev pub push_client : ℤ → ArrayQueue → ArrayQueue
push_client pid q = record {
  queue = set q.queue q.queue_length pid;
  queue_length = suc q.queue_length;
}

-- The clients that wait, the first first.
abbrev pub waiting : ArrayQueue → List ℤ
waiting q = take q.queue_length q.queue

abbrev pub IsQueue : ArrayQueue → Type 0
IsQueue q = (length q.queue ≡ max_queue) × (q.queue_length ≤ max_queue)

take-set :
    (n : ℕ) (xs : List ℤ) (pid : ℤ)
    → n < length xs
    → take (suc n) (set xs n pid) ≡ take n xs ++ pid ∷ []
take-set n [] pid h = absurd (omega arith)
take-set zero (x ∷ xs) pid h = refl
take-set (suc n) (x ∷ xs) pid h = ap (λ l. x ∷ l) (take-set n xs pid (omega arith))

shift-cons : (k i : ℕ) (x : ℤ) (xs : List ℤ) → shift k (suc i) (x ∷ xs) ≡ x ∷ shift k i xs
shift-cons zero i x xs = refl
shift-cons (suc k) i x xs = shift-cons k (suc i) x (set xs i (get_or xs (suc i) (negsuc 0)))

length-shift : (k i : ℕ) (xs : List ℤ) → length (shift k i xs) ≡ length xs
length-shift zero i xs = refl
length-shift (suc k) i xs =
    length-shift k (suc i) (set xs i (get_or xs (suc i) (negsuc 0)))
    ∙ length-set xs i (get_or xs (suc i) (negsuc 0))

take-shift : (k : ℕ) (x : ℤ) (xs : List ℤ) → k ≤ length xs → take k (shift k 0 (x ∷ xs)) ≡ take k xs
take-shift zero x xs h = refl
take-shift (suc k) x [] h = absurd (omega arith)
take-shift (suc k) x (y ∷ ys) h =
    ap (take (suc k)) (shift-cons k 0 y (y ∷ ys))
    ∙ ap (λ l. y ∷ l) (take-shift k y ys (omega arith))

-- What the barber finds: no client, or the first one, with the others left in their order.
abbrev pub Pops : ArrayQueue → Type 0
Pops q =
    (waiting q ≡ []) × (peek_queue q ≡ negsuc 0) × (pop_client q ≡ (negsuc 0, q))
    ⊎ (waiting q ≡ peek_queue q ∷ waiting (pop_client q).1)
      × ((pop_client q).0 ≡ peek_queue q)
      × IsQueue (pop_client q).1

Pops-IsQueue :
    (xs : List ℤ) (n : ℕ)
    → length xs ≡ max_queue
    → n ≤ max_queue
    → Pops (record { queue = xs; queue_length = n })
Pops-IsQueue xs zero e h = inl (refl, refl, refl)
Pops-IsQueue [] (suc n) e h = absurd (omega arith)
Pops-IsQueue (x ∷ xs) (suc n) e h =
    ground (arith, take-shift n x xs (omega arith), length-shift n 0 (x ∷ xs))

-- The array of 50 entries behaves like a queue: a client that is pushed while an entry is free comes
-- behind those that wait; `pop_client` and `peek_queue` give the first of those that wait, -1 when nobody
-- does, and the former leaves the others in their order.
pub array_refines :
    (q : ArrayQueue)
    → IsQueue q
    → ((pid : ℤ)
        → q.queue_length < max_queue
        → (waiting (push_client pid q) ≡ waiting q ++ pid ∷ []) × IsQueue (push_client pid q))
      × Pops q
array_refines q (e, h) = (
  (λ pid lt. (
    take-set q.queue_length q.queue pid (omega (arith, e)),
    (length-set q.queue q.queue_length pid ∙ e, omega arith),
  )),
  Pops-IsQueue q.queue q.queue_length e h,
)
