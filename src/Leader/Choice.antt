-- ===== src/Leader/Choice.antt =====
-- Which pod `getLeader` (pkg/controllers/apps/sidekick_controller.go) chooses.
use mathlib.Core.Path.{subst}
use sidekick.Prelude.{
  ℕ, ◌≤◌, ◌<◌, ◌≡◌, refl, sym, ◌∙◌, ◌↔◌, not_found, is_ok, ok-injective, Bool, true, List, [], ◌∷◌,
  arith, leb, ltb, ok, err, if◌then◌else◌,
}
use sidekick.Prelude.Lists.{all, All, length, last_of}
use sidekick.Api.Pod.{Pod}
use sidekick.Api.Sidekick.{LeaderSelectionPolicy, unset, first, last, selects_first}
use sidekick.Leader.{Sort, pod_less, pick, choose}
use sidekick.Leader.Name.{rank, HasOrdinal, name_less-rank}

module _ {R : Type 0} where
  abbrev pub key : Pod R → ℕ
  key pod = rank pod.name

  abbrev pub SortedBy : (Pod R → ℕ) → List (Pod R) → Type 0
  SortedBy k [] = Unit
  SortedBy k (x ∷ xs) = All (λ y. k x ≤ k y) xs × SortedBy k xs

  -- The test orders the list by a number of each pod.
  abbrev pub OrdersBy : (Pod R → ℕ) → (Pod R → Pod R → Bool) → List (Pod R) → Type 0
  OrdersBy k less xs = All (λ x. All (λ y. less x y ≡ ltb (k x) (k y)) xs) xs

-- What `sort.Slice` promises: the pods stay the same, and if the test orders them by a number, they
-- are in the order of that number.
pub record Sorts {R : Type 0} (sort : Sort R) : Type 0 where
  pub same :
      (less : Pod R → Pod R → Bool) (xs : List (Pod R)) (p : Pod R → Bool)
      → all p (sort less xs) ≡ all p xs
  pub same_length :
      (less : Pod R → Pod R → Bool) (xs : List (Pod R)) → length (sort less xs) ≡ length xs
  pub sorted :
      (k : Pod R → ℕ) (less : Pod R → Pod R → Bool) (xs : List (Pod R))
      → OrdersBy k less xs
      → SortedBy k (sort less xs)

module _ {R : Type 0} where
  abbrev pub AllNumbered : List (Pod R) → Type 0
  AllNumbered = All (λ pod. HasOrdinal pod.name)

  less_than-All :
      (x : Pod R) (ys : List (Pod R))
      → HasOrdinal x.name
      → AllNumbered ys
      → All (λ y. pod_less x y ≡ ltb (key x) (key y)) ys
  less_than-All x [] h hs = tt
  less_than-All x (y ∷ ys) h (h', hs) = (name_less-rank x.name y.name h h', less_than-All x ys h hs)

  orders-All :
      (xs ys : List (Pod R))
      → AllNumbered xs
      → AllNumbered ys
      → All (λ x. All (λ y. pod_less x y ≡ ltb (key x) (key y)) ys) xs
  orders-All [] ys h hs = tt
  orders-All (x ∷ xs) ys (h, h') hs = (less_than-All x ys h hs, orders-All xs ys h' hs)

  -- The pod comes before each pod of the list, or after.
  abbrev pub is_extreme : LeaderSelectionPolicy → Pod R → Pod R → Bool
  is_extreme policy leader pod =
      if selects_first policy then leb (key leader) (key pod) else leb (key pod) (key leader)

  head_least :
      (x : Pod R) (xs : List (Pod R))
      → All (λ y. key x ≤ key y) xs
      → all (λ y. leb (key x) (key y)) xs ≡ true
  head_least x [] h = refl
  head_least x (y ∷ ys) (h, hs) = ground (arith, head_least x ys hs)

  below_last : (x : Pod R) (xs : List (Pod R)) → SortedBy key (x ∷ xs) → key x ≤ key (last_of x xs)
  below_last x [] h = omega arith
  below_last x (y ∷ ys) ((h, hs), more) = omega (arith, below_last y ys more)

  last_greatest :
      (x : Pod R) (xs : List (Pod R))
      → SortedBy key (x ∷ xs)
      → all (λ y. leb (key y) (key (last_of x xs))) (x ∷ xs) ≡ true
  last_greatest x [] h = ground arith
  last_greatest x (y ∷ ys) h = ground (arith, below_last x (y ∷ ys) h, last_greatest y ys h.1)

  least_first :
      (x : Pod R) (xs : List (Pod R))
      → SortedBy key (x ∷ xs)
      → all (λ y. leb (key x) (key y)) (x ∷ xs) ≡ true
  least_first x xs h = ground (arith, head_least x xs h.0)

  pick-extreme :
      (policy : LeaderSelectionPolicy) (xs : List (Pod R)) (leader : Pod R)
      → SortedBy key xs
      → pick policy xs ≡ ok leader
      → all (is_extreme policy leader) xs ≡ true
  unfolding pick
  pick-extreme policy [] leader s h = cc
  pick-extreme first (x ∷ xs) leader s h =
      subst (λ l. all (is_extreme first l) (x ∷ xs) ≡ true) (ok-injective _ _ h)
        (least_first x xs s)
  pick-extreme last (x ∷ xs) leader s h =
      subst (λ l. all (is_extreme last l) (x ∷ xs) ≡ true) (ok-injective _ _ h)
        (last_greatest x xs s)
  pick-extreme unset (x ∷ xs) leader s h =
      subst (λ l. all (is_extreme unset l) (x ∷ xs) ≡ true) (ok-injective _ _ h)
        (last_greatest x xs s)

  all-last_of :
      (p : Pod R → Bool) (x : Pod R) (xs : List (Pod R))
      → all p (x ∷ xs) ≡ true
      → p (last_of x xs) ≡ true
  all-last_of p x [] h = ground arith
  all-last_of p x (y ∷ ys) h = ground (arith, all-last_of p y ys)

  pick-member :
      (policy : LeaderSelectionPolicy) (xs : List (Pod R)) (leader : Pod R) (p : Pod R → Bool)
      → pick policy xs ≡ ok leader
      → all p xs ≡ true
      → p leader ≡ true
  unfolding pick
  pick-member policy [] leader p h a = cc
  pick-member first (x ∷ xs) leader p h a =
      subst (λ l. p l ≡ true) (ok-injective _ _ h) (ground arith)
  pick-member last (x ∷ xs) leader p h a =
      subst (λ l. p l ≡ true) (ok-injective _ _ h) (all-last_of p x xs a)
  pick-member unset (x ∷ xs) leader p h a =
      subst (λ l. p l ≡ true) (ok-injective _ _ h) (all-last_of p x xs a)

module _ {R : Type 0} (sort : Sort R) (sorts : Sorts sort) where
  -- For a sort that keeps the pods, the leader is one of them: what holds of all of them holds of
  -- it.
  choose-member :
      (policy : LeaderSelectionPolicy) (xs : List (Pod R)) (leader : Pod R) (p : Pod R → Bool)
      → choose sort policy xs ≡ ok leader
      → all p xs ≡ true
      → p leader ≡ true
  unfolding choose
  choose-member policy [] leader p h a = cc
  choose-member policy (x ∷ []) leader p h a =
      subst (λ l. p l ≡ true) (ok-injective _ _ h) (ground arith)
  choose-member policy (x ∷ y ∷ ys) leader p h a =
      pick-member policy (sort pod_less (x ∷ y ∷ ys)) leader p h
        (sorts.same pod_less (x ∷ y ∷ ys) p ∙ a)

  -- For a sort that keeps the pods and orders them where the test orders them by a number: where
  -- the names of all pods have numbers, the policy First chooses a pod with the least number, and
  -- any other policy one with the greatest.
  pub choose-extreme :
      (policy : LeaderSelectionPolicy) (xs : List (Pod R)) (leader : Pod R)
      → AllNumbered xs
      → choose sort policy xs ≡ ok leader
      → all (is_extreme policy leader) xs ≡ true
  unfolding choose
  choose-extreme policy [] leader n h = cc
  choose-extreme policy (x ∷ []) leader n h =
      subst (λ l. all (is_extreme policy l) (x ∷ []) ≡ true) (ok-injective _ _ h) (ground arith)
  choose-extreme policy (x ∷ y ∷ ys) leader n h =
      let xs = x ∷ y ∷ ys in
      sym (sorts.same pod_less xs (is_extreme policy leader))
      ∙ pick-extreme policy (sort pod_less xs) leader
          (sorts.sorted key pod_less xs (orders-All xs xs n n)) h

  pick-ok :
      (policy : LeaderSelectionPolicy) (xs : List (Pod R))
      → 0 < length xs
      → is_ok (pick policy xs) ≡ true
  unfolding pick
  pick-ok policy [] h = absurd (omega arith)
  pick-ok policy (x ∷ xs) h = refl

  -- For a sort that keeps the pods, there is a leader exactly when there is a pod, and the error is
  -- NotFound exactly when there is none.
  choose-ok :
      (policy : LeaderSelectionPolicy) (xs : List (Pod R))
      → ((0 < length xs) ↔ (is_ok (choose sort policy xs) ≡ true))
        × ((length xs ≡ 0) ↔ (choose sort policy xs ≡ err not_found))
  unfolding choose
  choose-ok policy [] = ground arith
  choose-ok policy (x ∷ []) = ground arith
  choose-ok policy (x ∷ y ∷ ys) =
      ground (
        arith,
        sorts.same_length pod_less (x ∷ y ∷ ys),
        pick-ok policy (sort pod_less (x ∷ y ∷ ys)),
      )
