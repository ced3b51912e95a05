-- ===== src/Flow/Fifo.antt =====
-- The fifo of internal/flow/flow.go: a slice with the index of its oldest element.
use ristgo.Prelude.{ℕ, zero, suc, ◌+◌, ◌≤◌, ◌<◌, ◌≡◌, refl, ap, arith, Option, none, some}
use ristgo.Prelude.{List, [], ◌∷◌, ◌++◌, length, length-append, drop, leb, ◌==◌, if◌then◌else◌}
use ristgo.Prelude.{Bool-cases, inl, inr}

pub record Fifo {ℓ} (A : Type ℓ) : Type ℓ where
  pub items : List A
  pub head : ℕ

next : (n : ℕ) → n + 1 ≡ suc n
next n = omega arith

module _ {ℓ} {A : Type ℓ} where
  abbrev pub empty : Fifo A
  empty = record { items = []; head = 0 }

  unfoldable pub push : Fifo A → A → Fifo A
  push q v = record q { items = q.items ++ (v ∷ []) }

  get_or : List A → ℕ → A → A
  get_or [] i d = d
  get_or (x ∷ xs) zero d = x
  get_or (x ∷ xs) (suc i) d = get_or xs i d

  set : List A → ℕ → A → List A
  set [] i v = []
  set (x ∷ xs) zero v = v ∷ xs
  set (x ∷ xs) (suc i) v = x ∷ set xs i v

  -- `z` is the zero value that a popped slot is overwritten with, and that `ok == false` returns.
  unfoldable pub pop : A → Fifo A → Option A × Fifo A
  unfolding get_or set
  pop z q =
      if leb (length q.items) q.head
      then (none, q)
      else let v = get_or q.items q.head z in
        let items = set q.items q.head z in
        (
          some v,
          if q.head + 1 == length items
              then record { items = []; head = 0 }
              else record { items = items; head = q.head + 1 },
        )

  -- The elements waiting, oldest first.
  abbrev pub pending : Fifo A → List A
  pending q = drop q.head q.items

  -- The specification: a queue as a list.
  abbrev pub take_front : List A → Option A × List A
  take_front [] = (none, [])
  take_front (x ∷ xs) = (some x, xs)

  drop-append : (n : ℕ) (xs ys : List A) → n ≤ length xs → drop n (xs ++ ys) ≡ drop n xs ++ ys
  drop-append zero xs ys h = refl
  drop-append (suc n) [] ys h = absurd (omega arith)
  drop-append (suc n) (x ∷ xs) ys h = drop-append n xs ys (omega arith)

  length-set : (xs : List A) (i : ℕ) (v : A) → length (set xs i v) ≡ length xs
  unfolding set
  length-set [] i v = refl
  length-set (x ∷ xs) zero v = refl
  length-set (x ∷ xs) (suc i) v = ap suc (length-set xs i v)

  drop_at :
      (xs : List A) (i : ℕ) (z : A)
      → i < length xs
      → drop i xs ≡ get_or xs i z ∷ drop (suc i) (set xs i z)
  unfolding get_or set
  drop_at [] i z h = absurd (omega arith)
  drop_at (x ∷ xs) zero z h = refl
  drop_at (x ∷ xs) (suc i) z h = drop_at xs i z (omega arith)

  drop_all : (xs : List A) (n : ℕ) → length xs ≤ n → drop n xs ≡ []
  drop_all [] zero h = refl
  drop_all [] (suc n) h = refl
  drop_all (x ∷ xs) zero h = absurd (omega arith)
  drop_all (x ∷ xs) (suc n) h = drop_all xs n (omega arith)

  -- If the head is within the slice, a pushed element waits behind all others, and the head stays
  -- within the slice.
  pub push-pending :
      (q : Fifo A) (v : A)
      → q.head ≤ length q.items
      → (pending (push q v) ≡ pending q ++ (v ∷ [])) × ((push q v).head ≤ length (push q v).items)
  unfolding push
  push-pending q v h =
      (drop-append q.head q.items (v ∷ []) h, omega (arith, length-append q.items (v ∷ [])))

  -- `pop` takes the oldest of the elements waiting, or none if none is waiting, and leaves the rest
  -- in order and the head within the slice, if it was.
  pub pop-pending :
      (z : A) (q : Fifo A)
      → q.head ≤ length q.items
      → let (o, q') = pop z q in
        ((o, pending q') ≡ take_front (pending q)) × (q'.head ≤ length q'.items)
  unfolding pop
  pop-pending z q h = elim (Bool-cases (leb (length q.items) q.head)) [
    | inl all_gone ↦
        let gone : length q.items ≤ q.head = ground arith in
        rw (all_gone, drop_all q.items q.head gone) (refl, h)
    | inr waiting ↦
        let some_left : q.head < length q.items = ground arith in
        let items = set q.items q.head z in
        let size = length-set q.items q.head z in
        let taken = drop_at q.items q.head z some_left in
        elim (Bool-cases (q.head + 1 == length items)) [
          | inl last ↦
              let none_after = drop_all items (suc q.head) (ground arith) in
              rw (waiting, last, taken, none_after) (refl, omega arith)
          | inr more_left ↦
              rw (waiting, more_left, taken)
                (
                  ap (λ n. (some (get_or q.items q.head z), drop n items)) (next q.head),
                  omega (arith, size, some_left),
                )
        ]
  ]
