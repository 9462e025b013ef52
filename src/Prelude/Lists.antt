-- ===== src/Prelude/Lists.antt =====
-- Lists measured by native numbers, Boolean searches, and a predicate on all elements.
use Prim.Native.Nat.{ℕ, zero, suc, ◌+◌}
use mathlib.Core.Path.{◌≡◌, refl, ap, sym, ◌∙◌, subst}
use mathlib.Core.Logic.{◌⊎◌, inl, inr}
use mathlib.Core.Bool.{Bool, true, false, ◌&&◌, ◌||◌}
use mathlib.Core.List.{List, [], ◌∷◌, ◌++◌, map}
use native.Mathlib.Omega.{arith}
use node_debug_dashboard.Prelude.Tests.{if◌then◌else◌, Bool-cases}

module _ {ℓ} {A : Type ℓ} where
  abbrev pub length : List A → ℕ
  length [] = 0
  length (x ∷ xs) = suc (length xs)

  pub length-append : (xs ys : List A) → length (xs ++ ys) ≡ length xs + length ys
  length-append [] ys = omega arith
  length-append (x ∷ xs) ys = omega (arith, length-append xs ys)

  abbrev pub take : ℕ → List A → List A
  take zero xs = []
  take (suc n) [] = []
  take (suc n) (x ∷ xs) = x ∷ take n xs

  abbrev pub any : (A → Bool) → List A → Bool
  any p [] = false
  any p (x ∷ xs) = p x || any p xs

  abbrev pub all : (A → Bool) → List A → Bool
  all p [] = true
  all p (x ∷ xs) = p x && all p xs

  -- The comprehension `[x for x in xs if p(x)]`.
  abbrev pub keep : (A → Bool) → List A → List A
  keep p [] = []
  keep p (x ∷ xs) = let rest = keep p xs in if p x then x ∷ rest else rest

  abbrev pub is_empty : List A → Bool
  is_empty [] = true
  is_empty (x ∷ xs) = false

abbrev pub concat_map {ℓ κ} : {A : Type ℓ} {B : Type κ} → (A → List B) → List A → List B
concat_map f [] = []
concat_map f (x ∷ xs) = f x ++ concat_map f xs

-- A predicate by recursion computes to tuples.
abbrev pub All {ℓ κ} : {A : Type ℓ} → (A → Type κ) → List A → Type κ
All P [] = Unit
All P (x ∷ xs) = P x × All P xs

module _ {ℓ κ} {A : Type ℓ} (P : A → Type κ) where
  pub All-append : (xs ys : List A) → All P xs → All P ys → All P (xs ++ ys)
  All-append [] ys hx hy = hy
  All-append (x ∷ xs) ys hx hy = (hx.0, All-append xs ys hx.1 hy)

module _ {ℓ} {A : Type ℓ} where
  pub any-append : (p : A → Bool) (xs ys : List A) → any p (xs ++ ys) ≡ (any p xs || any p ys)
  any-append p [] ys = refl
  any-append p (x ∷ xs) ys = ground (arith, any-append p xs ys)

  pub keep-append : (p : A → Bool) (xs ys : List A) → keep p (xs ++ ys) ≡ keep p xs ++ keep p ys
  keep-append p [] ys = refl
  keep-append p (x ∷ xs) ys = elim (Bool-cases (p x)) [
    | inl e ↦ rw e (ap (λ zs. x ∷ zs) (keep-append p xs ys))
    | inr e ↦ rw e (keep-append p xs ys)
  ]

  pub keep-All : (p : A → Bool) (xs : List A) → All (λ x. p x ≡ true) xs → keep p xs ≡ xs
  keep-All p [] h = refl
  keep-All p (x ∷ xs) h = rw (h.0) (ap (λ zs. x ∷ zs) (keep-All p xs h.1))

  pub keep-none : (p : A → Bool) (xs : List A) → All (λ x. p x ≡ false) xs → keep p xs ≡ []
  keep-none p [] h = refl
  keep-none p (x ∷ xs) h = rw (h.0) (keep-none p xs h.1)

  pub All-implies {κ} :
      {P Q : A → Type κ} (xs : List A) → ((x : A) → P x → Q x) → All P xs → All Q xs
  All-implies [] f h = tt
  All-implies (x ∷ xs) f h = (f x h.0, All-implies xs f h.1)

pub All-concat_map {ℓ κ μ} :
    {A : Type ℓ} {B : Type κ} (P : B → Type μ) (f : A → List B) (xs : List A)
    → ((x : A) → All P (f x))
    → All P (concat_map f xs)
All-concat_map P f [] h = tt
All-concat_map P f (x ∷ xs) h = All-append P (f x) (concat_map f xs) (h x) (All-concat_map P f xs h)

pub is_empty-append {ℓ} :
    {A : Type ℓ} (xs ys : List A) → is_empty (xs ++ ys) ≡ (is_empty xs && is_empty ys)
is_empty-append [] ys = refl
is_empty-append (x ∷ xs) ys = refl

pub is_empty-map {ℓ κ} :
    {A : Type ℓ} {B : Type κ} (f : A → B) (xs : List A) → is_empty (map f xs) ≡ is_empty xs
is_empty-map f [] = refl
is_empty-map f (x ∷ xs) = refl

-- Membership by recursion.
abbrev pub In : {A : Type 0} → A → List A → Type 0
In x [] = ⊥
In x (y ∷ ys) = (x ≡ y) ⊎ In x ys

module _ {A : Type 0} where
  pub In-append_left : (x : A) (xs ys : List A) → In x xs → In x (xs ++ ys)
  In-append_left x (y ∷ xs) ys (inl e) = inl e
  In-append_left x (y ∷ xs) ys (inr h) = inr (In-append_left x xs ys h)
  In-append_left x [] ys h = absurd h

  pub In-append_right : (x : A) (xs ys : List A) → In x ys → In x (xs ++ ys)
  In-append_right x [] ys h = h
  In-append_right x (y ∷ xs) ys h = inr (In-append_right x xs ys h)

  pub In-append : (x : A) (xs ys : List A) → In x (xs ++ ys) → In x xs ⊎ In x ys
  In-append x [] ys h = inr h
  In-append x (y ∷ xs) ys (inl e) = inl (inl e)
  In-append x (y ∷ xs) ys (inr h) = elim (In-append x xs ys h) [
    | inl l ↦ inl (inr l)
    | inr r ↦ inr r
  ]

  In-if :
      (b : Bool) (x y : A) (rest : List A)
      → In x (if b then y ∷ rest else rest)
      → ((x ≡ y) × (b ≡ true)) ⊎ In x rest
  In-if true x y rest (inl e) = inl (e, refl)
  In-if true x y rest (inr h) = inr h
  In-if false x y rest h = inr h

  pub In-keep : (p : A → Bool) (x : A) (xs : List A) → In x (keep p xs) → In x xs × (p x ≡ true)
  In-keep p x [] h = absurd h
  In-keep p x (y ∷ xs) h = elim (In-if (p y) x y (keep p xs) h) [
    | inl (e, t) ↦ (inl e, ap p e ∙ t)
    | inr m ↦ let (m', t) = In-keep p x xs m in (inr m', t)
  ]

  pub keep-In : (p : A → Bool) (x : A) (xs : List A) → In x xs → p x ≡ true → In x (keep p xs)
  keep-In p x [] h t = absurd h
  keep-In p x (y ∷ xs) (inl e) t = rw (ap p (sym e) ∙ t) (inl e)
  keep-In p x (y ∷ xs) (inr h) t = elim (Bool-cases (p y)) [
    | inl b ↦ rw b (inr (keep-In p x xs h t))
    | inr b ↦ rw b (keep-In p x xs h t)
  ]

module _ {A B : Type 0} where
  pub In-concat_map :
      (f : A → List B) (y : B) (xs : List A)
      → In y (concat_map f xs)
      → (x : A) × In x xs × In y (f x)
  In-concat_map f y [] h = absurd h
  In-concat_map f y (x ∷ xs) h = elim (In-append y (f x) (concat_map f xs) h) [
    | inl l ↦ (x, inl refl, l)
    | inr r ↦ let (z, m, n) = In-concat_map f y xs r in (z, inr m, n)
  ]

  pub concat_map-In :
      (f : A → List B) (x : A) (y : B) (xs : List A) → In x xs → In y (f x) → In y (concat_map f xs)
  concat_map-In f x y [] h m = absurd h
  concat_map-In f x y (z ∷ xs) (inl e) m =
      In-append_left y (f z) (concat_map f xs) (subst (λ w. In y (f w)) e m)
  concat_map-In f x y (z ∷ xs) (inr h) m =
      In-append_right y (f z) (concat_map f xs) (concat_map-In f x y xs h m)

  pub map-In : (f : A → B) (x : A) (xs : List A) → In x xs → In (f x) (map f xs)
  map-In f x [] h = absurd h
  map-In f x (y ∷ xs) (inl e) = inl (ap f e)
  map-In f x (y ∷ xs) (inr h) = inr (map-In f x xs h)

  pub In-map : (f : A → B) (y : B) (xs : List A) → In y (map f xs) → (x : A) × In x xs × (y ≡ f x)
  In-map f y [] h = absurd h
  In-map f y (x ∷ xs) (inl e) = (x, inl refl, e)
  In-map f y (x ∷ xs) (inr h) = let (z, m, e) = In-map f y xs h in (z, inr m, e)
