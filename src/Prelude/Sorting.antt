-- ===== src/Prelude/Sorting.antt =====
-- Python's `sorted`: a stable sort by a strict order.
use mathlib.Core.Path.{◌≡◌, refl}
use mathlib.Core.Logic.{inl, inr}
use mathlib.Core.Bool.{Bool, true, false}
use mathlib.Core.List.{List, [], ◌∷◌}
use native.Mathlib.Omega.{arith}
use node_debug_dashboard.Prelude.Tests.{if◌then◌else◌, Bool-cases}
use node_debug_dashboard.Prelude.Lists.{In, All, All-implies, length}

module _ {A : Type 0} (lt : A → A → Bool) where
  -- In front of the first element that is not smaller.
  unfoldable pub insert_by : A → List A → List A
  insert_by x [] = x ∷ []
  insert_by x (y ∷ ys) = let rest = insert_by x ys in if lt y x then y ∷ rest else x ∷ y ∷ ys

  unfoldable pub sort_by : List A → List A
  unfolding insert_by
  sort_by [] = []
  sort_by (x ∷ xs) = insert_by x (sort_by xs)

  -- No element is smaller than one in front of it.
  unfoldable pub IsSorted : List A → Type 0
  IsSorted [] = Unit
  IsSorted (x ∷ xs) = All (λ y. lt y x ≡ false) xs × IsSorted xs

  pub length-insert_by : (x : A) (xs : List A) → length (insert_by x xs) ≡ length (x ∷ xs)
  unfolding insert_by
  length-insert_by x [] = refl
  length-insert_by x (y ∷ ys) = ground (arith, length-insert_by x ys)

  pub length-sort_by : (xs : List A) → length (sort_by xs) ≡ length xs
  unfolding sort_by
  length-sort_by [] = refl
  length-sort_by (x ∷ xs) = omega (arith, length-insert_by x (sort_by xs), length-sort_by xs)

  In-insert_by : (z x : A) (xs : List A) → In z (insert_by x xs) → In z (x ∷ xs)
  unfolding insert_by
  In-insert_by z x [] i = i
  In-insert_by z x (y ∷ ys) i = elim (Bool-cases (lt y x)) [
    | inr e ↦ rw (e, In) at i
    | inl e ↦ elim (rw (e, In) at i) [
      | inl p ↦ inr (inl p)
      | inr j ↦ elim (In-insert_by z x ys j) [ inl p ↦ inl p | inr k ↦ inr (inr k) ]
    ]
  ]

  insert_by-In : (z x : A) (xs : List A) → In z (x ∷ xs) → In z (insert_by x xs)
  unfolding insert_by
  insert_by-In z x [] i = i
  insert_by-In z x (y ∷ ys) i = elim (Bool-cases (lt y x)) [
    | inr e ↦ rw (e, In) i
    | inl e ↦ elim i [
      | inl p ↦ rw (e, In) (inr (insert_by-In z x ys (inl p)))
      | inr (inl p) ↦ rw (e, In) (inl p)
      | inr (inr k) ↦ rw (e, In) (inr (insert_by-In z x ys (inr k)))
    ]
  ]

  pub In-sort_by : (z : A) (xs : List A) → In z (sort_by xs) → In z xs
  unfolding sort_by
  In-sort_by z [] i = i
  In-sort_by z (x ∷ xs) i = elim (In-insert_by z x (sort_by xs) i) [
    | inl p ↦ inl p
    | inr j ↦ inr (In-sort_by z xs j)
  ]

  pub sort_by-In : (z : A) (xs : List A) → In z xs → In z (sort_by xs)
  unfolding sort_by
  sort_by-In z [] i = i
  sort_by-In z (x ∷ xs) (inl p) = insert_by-In z x (sort_by xs) (inl p)
  sort_by-In z (x ∷ xs) (inr i) = insert_by-In z x (sort_by xs) (inr (sort_by-In z xs i))

  -- For an order in which two elements are smaller in one direction at most, and in which being no
  -- smaller than another is transitive.
  module _ (asymmetric : (x y : A) → lt x y ≡ true → lt y x ≡ false)
      (connected : (x y z : A) → lt y x ≡ false → lt z y ≡ false → lt z x ≡ false) where
    insert_by-All : (P : A → Type 0) (x : A) (xs : List A) → P x → All P xs → All P (insert_by x xs)
    unfolding insert_by
    insert_by-All P x [] p all = (p, tt)
    insert_by-All P x (y ∷ ys) p all = elim (Bool-cases (lt y x)) [
      | inl e ↦ rw (e, All) (all.0, insert_by-All P x ys p all.1)
      | inr e ↦ rw (e, All) (p, all)
    ]

    insert_by-IsSorted : (x : A) (xs : List A) → IsSorted xs → IsSorted (insert_by x xs)
    unfolding insert_by IsSorted
    insert_by-IsSorted x [] h = (tt, tt)
    insert_by-IsSorted x (y ∷ ys) h = elim (Bool-cases (lt y x)) [
      | inl e ↦
          rw (e, IsSorted)
            (
              insert_by-All (λ z. lt z y ≡ false) x ys (asymmetric y x e) h.0,
              insert_by-IsSorted x ys h.1,
            )
      | inr e ↦ rw (e, IsSorted) ((e, All-implies ys (λ z n. connected x y z e n) h.0), h)
    ]

    pub sort_by-IsSorted : (xs : List A) → IsSorted (sort_by xs)
    unfolding sort_by IsSorted
    sort_by-IsSorted [] = tt
    sort_by-IsSorted (x ∷ xs) = insert_by-IsSorted x (sort_by xs) (sort_by-IsSorted xs)
