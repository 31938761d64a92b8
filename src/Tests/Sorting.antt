-- ===== src/Tests/Sorting.antt =====
-- An insertion sort, which shows that the promise of `sort.Slice` can be met.
use sidekick.Prelude.{
  ℕ, suc, ◌≤◌, ◌≡◌, refl, ap, ◌∙◌, Bool, ◌&&◌, List, [], ◌∷◌, arith, ltb, if◌then◌else◌, Bool-cases,
  inl, inr,
}
use sidekick.Prelude.Lists.{all, All, length}
use sidekick.Api.Pod.{Pod}
use sidekick.Leader.{Sort}
use sidekick.Leader.Choice.{SortedBy, OrdersBy, Sorts}

module _ {R : Type 0} where
  insert : (Pod R → Pod R → Bool) → Pod R → List (Pod R) → List (Pod R)
  insert less x [] = x ∷ []
  insert less x (y ∷ ys) = let rest = insert less x ys in if less y x then y ∷ rest else x ∷ y ∷ ys

  unfoldable pub insertion_sort : Sort R
  unfolding insert
  insertion_sort less [] = []
  insertion_sort less (x ∷ xs) = insert less x (insertion_sort less xs)

  all-insert :
      (less : Pod R → Pod R → Bool) (p : Pod R → Bool) (x : Pod R) (xs : List (Pod R))
      → all p (insert less x xs) ≡ (p x && all p xs)
  unfolding insert
  all-insert less p x [] = refl
  all-insert less p x (y ∷ ys) = ground (arith, all-insert less p x ys)

  length-insert :
      (less : Pod R → Pod R → Bool) (x : Pod R) (xs : List (Pod R))
      → length (insert less x xs) ≡ suc (length xs)
  unfolding insert
  length-insert less x [] = refl
  length-insert less x (y ∷ ys) = ground (arith, length-insert less x ys)

  All-insert :
      (less : Pod R → Pod R → Bool) (P : Pod R → Type 0) (x : Pod R) (xs : List (Pod R))
      → P x
      → All P xs
      → All P (insert less x xs)
  unfolding insert
  All-insert less P x [] p h = (p, tt)
  All-insert less P x (y ∷ ys) p (q, h) = elim (Bool-cases (less y x)) [
    | inl t ↦ rw t (q, All-insert less P x ys p h)
    | inr f ↦ rw f (p, (q, h))
  ]

  All-sort :
      (less : Pod R → Pod R → Bool) (P : Pod R → Type 0) (xs : List (Pod R))
      → All P xs
      → All P (insertion_sort less xs)
  unfolding insertion_sort
  All-sort less P [] h = tt
  All-sort less P (x ∷ xs) (p, h) = All-insert less P x _ p (All-sort less P xs h)

  All-map :
      {P Q : Pod R → Type 0} (xs : List (Pod R)) → ((x : Pod R) → P x → Q x) → All P xs → All Q xs
  All-map [] f h = tt
  All-map (x ∷ xs) f (p, h) = (f x p, All-map xs f h)

  sorted-insert :
      (k : Pod R → ℕ) (less : Pod R → Pod R → Bool) (x : Pod R) (xs : List (Pod R))
      → All (λ y. less y x ≡ ltb (k y) (k x)) xs
      → SortedBy k xs
      → SortedBy k (insert less x xs)
  unfolding insert
  sorted-insert k less x [] o s = (tt, tt)
  sorted-insert k less x (y ∷ ys) (o, os) (below, s) = elim (Bool-cases (less y x)) [
    | inl t ↦
        rw t (
          All-insert less (λ z. k y ≤ k z) x ys (ground arith) below,
          sorted-insert k less x ys os s,
        )
    | inr f ↦
        let least : k x ≤ k y = ground arith in
        rw f ((least, All-map ys (λ z h. omega arith) below), (below, s))
  ]

  sorted-sort :
      (k : Pod R → ℕ) (less : Pod R → Pod R → Bool) (xs : List (Pod R))
      → OrdersBy k less xs
      → SortedBy k (insertion_sort less xs)
  unfolding insertion_sort
  sorted-sort k less [] o = tt
  sorted-sort k less (x ∷ xs) (first, others) =
      sorted-insert k less x _
        (All-sort less (λ y. less y x ≡ ltb (k y) (k x)) xs (All-map xs (λ y o. o.0) others))
        (sorted-sort k less xs (All-map xs (λ y o. o.1) others))

  all-sort :
      (less : Pod R → Pod R → Bool) (p : Pod R → Bool) (xs : List (Pod R))
      → all p (insertion_sort less xs) ≡ all p xs
  unfolding insertion_sort
  all-sort less p [] = refl
  all-sort less p (x ∷ xs) = all-insert less p x _ ∙ ap (λ b. p x && b) (all-sort less p xs)

  length-sort :
      (less : Pod R → Pod R → Bool) (xs : List (Pod R))
      → length (insertion_sort less xs) ≡ length xs
  unfolding insertion_sort
  length-sort less [] = refl
  length-sort less (x ∷ xs) = length-insert less x _ ∙ ap suc (length-sort less xs)

  pub insertion_sort-Sorts : Sorts {R = R} insertion_sort
  insertion_sort-Sorts = record {
    same = λ less xs p. all-sort less p xs;
    same_length = length-sort;
    sorted = sorted-sort;
  }
