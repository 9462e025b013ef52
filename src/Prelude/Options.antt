-- ===== src/Prelude/Options.antt =====
-- Code that may raise: a result, or nothing, with do blocks.
use mathlib.Core.Path.{◌≡◌, refl, ap, ◌∙◌, subst}
use mathlib.Core.Logic.{inl, inr}
use mathlib.Core.Option.{Option, none, some}
use mathlib.Core.List.{List, [], ◌∷◌}
use native.Mathlib.Omega.{arith}
use node_debug_dashboard.Prelude.Tests.{Option-cases}
use node_debug_dashboard.Prelude.Lists.{In, length}

infixl 5 ◌>>=◌
abbrev pub ◌>>=◌ {ℓ κ} : {A : Type ℓ} {B : Type κ} → Option A → (A → Option B) → Option B
none >>= f = none
some a >>= f = f a

-- The list of the results, if no call raises.
abbrev pub traverse {ℓ κ} : {A : Type ℓ} {B : Type κ} → (A → Option B) → List A → Option (List B)
traverse f [] = some []
traverse f (x ∷ xs) = do y ← f x; ys ← traverse f xs; some (y ∷ ys)

-- The results there are.
abbrev pub filter_map {ℓ κ} : {A : Type ℓ} {B : Type κ} → (A → Option B) → List A → List B
filter_map f [] = []
filter_map f (x ∷ xs) = let rest = filter_map f xs in elim (f x) [ none ↦ rest | some y ↦ y ∷ rest ]

-- A chain that gives a result gave one in its first step, and goes on from there.
pub bind_some {ℓ κ} :
    {A : Type ℓ} {B : Type κ} (m : Option A) (f : A → Option B) (b : B)
    → (m >>= f) ≡ some b
    → (a : A) × (m ≡ some a) × (f a ≡ some b)
bind_some none f b h = cc
bind_some (some a) f b h = (a, refl, h)

module _ {A B : Type 0} (f : A → Option B) where
  traverse-cons :
      (x : A) (xs : List A) (zs : List B)
      → traverse f (x ∷ xs) ≡ some zs
      → (y : B) × (ys : List B) × (f x ≡ some y) × (traverse f xs ≡ some ys) × (y ∷ ys ≡ zs)
  traverse-cons x xs zs h = elim (Option-cases (f x)) [
    | inl a ↦ absurd (ground (arith, h, a))
    | inr (y, a) ↦ elim (Option-cases (traverse f xs)) [
      | inl b ↦ absurd (ground (arith, h, a, b))
      | inr (ys, b) ↦ (y, ys, a, b, ground (arith, h, a, b))
    ]
  ]

  -- The results stand for the elements: as many, and one of each.
  pub length-traverse :
      (xs : List A) (ys : List B) → traverse f xs ≡ some ys → length ys ≡ length xs
  length-traverse [] ys h = ground (arith, h)
  length-traverse (x ∷ xs) zs h =
      let (y, ys, a, b, e) = traverse-cons x xs zs h in ground (arith, e, length-traverse xs ys b)

  pub traverse-In :
      (x : A) (xs : List A) (ys : List B)
      → traverse f xs ≡ some ys
      → In x xs
      → (y : B) × (f x ≡ some y) × In y ys
  traverse-In x [] ys h i = absurd i
  traverse-In x (w ∷ ws) zs h i =
      let (y, ys, a, b, e) = traverse-cons w ws zs h in
      elim i [
        | inl p ↦ (y, ap f p ∙ a, subst (In y) e (inl refl))
        | inr j ↦ let (v, c, k) = traverse-In x ws ys b j in (v, c, subst (In v) e (inr k))
      ]
