-- ===== src/Prelude/Dicts.antt =====
-- Python's `dict`: an association list in insertion order, over keys with a Boolean equality.
use Prim.Native.Nat.{ℕ, ◌+◌, ◌≤◌}
use mathlib.Core.Path.{◌≡◌, refl}
use mathlib.Core.Logic.{◌↔◌, ◌≢◌}
use mathlib.Core.Bool.{Bool, true}
use mathlib.Core.Option.{Option, none, some}
use mathlib.Core.List.{List, [], ◌∷◌}
use native.Mathlib.Omega.{arith}
use node_debug_dashboard.Prelude.Tests.{◌==◌, ==_iff, if◌then◌else◌}
use node_debug_dashboard.Prelude.Lists.{length}
use node_debug_dashboard.Prelude.Int.{ℤ, eq_ℤ, eq_ℤ_iff}
use node_debug_dashboard.Prelude.Strings.{Text, text_eq, text_eq_iff}

pub record Eq {ℓ} (K : Type ℓ) : Type ℓ where
  pub beq : K → K → Bool
  pub beq_iff : (a b : K) → (beq a b ≡ true) ↔ (a ≡ b)

instance abbrev pub nat_eq : Eq ℕ
nat_eq = record { beq = ◌==◌; beq_iff = ==_iff }

instance abbrev pub str_eq : Eq Text
str_eq = record { beq = text_eq; beq_iff = text_eq_iff }

instance abbrev pub int_eq : Eq ℤ
int_eq = record { beq = eq_ℤ; beq_iff = eq_ℤ_iff }

abbrev pub Dict {ℓ κ} : Type ℓ → Type κ → Type (ℓ ⊔ κ)
Dict K V = List (K × V)

module _ {ℓ κ} {K : Type ℓ} {V : Type κ} ⦃e : Eq K⦄ where
  -- `d.get(k)`
  unfoldable pub lookup : K → Dict K V → Option V
  lookup k [] = none
  lookup k ((j, v) ∷ d) = if e.beq j k then some v else lookup k d

  -- `d[k] = v`: an old key keeps its place.
  unfoldable pub put : K → V → Dict K V → Dict K V
  put k v [] = (k, v) ∷ []
  put k v ((j, w) ∷ d) = if e.beq j k then (j, v) ∷ d else (j, w) ∷ put k v d

  -- `d.pop(k, None)`
  unfoldable pub remove : K → Dict K V → Dict K V
  remove k [] = []
  remove k ((j, v) ∷ d) = let rest = remove k d in if e.beq j k then rest else (j, v) ∷ rest

  pub lookup-put :
      (k j : K) (v : V) (d : Dict K V)
      → lookup j (put k v d) ≡ (if e.beq k j then some v else lookup j d)
  unfolding lookup put
  lookup-put k j v [] = refl
  lookup-put k j v ((i, w) ∷ d) =
      ground (arith, e.beq_iff k j, e.beq_iff i k, e.beq_iff i j, lookup-put k j v d)

  pub lookup-remove :
      (k j : K) (d : Dict K V) → lookup j (remove k d) ≡ (if e.beq k j then none else lookup j d)
  unfolding lookup remove
  lookup-remove k j [] = ground arith
  lookup-remove k j ((i, w) ∷ d) =
      ground (arith, e.beq_iff k j, e.beq_iff i k, e.beq_iff i j, lookup-remove k j d)

  pub length-put-le : (k : K) (v : V) (d : Dict K V) → length (put k v d) ≤ length d + 1
  unfolding put
  length-put-le k v [] = omega arith
  length-put-le k v ((j, w) ∷ d) = ground (arith, length-put-le k v d)

  pub length-remove-le : (k : K) (d : Dict K V) → length (remove k d) ≤ length d
  unfolding remove
  length-remove-le k [] = omega arith
  length-remove-le k ((j, v) ∷ d) = ground (arith, length-remove-le k d)

  -- Removing a key that is present makes the table shorter.
  pub length-remove-lt :
      (k : K) (d : Dict K V) → lookup k d ≢ none → length (remove k d) + 1 ≤ length d
  unfolding lookup remove
  length-remove-lt k [] h = absurd (h refl)
  length-remove-lt k ((j, v) ∷ d) h = ground (arith, length-remove-lt k d, length-remove-le k d)

  -- A new key makes the table longer by one.
  pub length-put_new :
      (k : K) (v : V) (d : Dict K V) → lookup k d ≡ none → length (put k v d) ≡ length d + 1
  unfolding lookup put
  length-put_new k v [] h = omega arith
  length-put_new k v ((j, w) ∷ d) h = ground (arith, length-put_new k v d)

  pub lookup-put_self : (k : K) (v : V) (d : Dict K V) → lookup k (put k v d) ≡ some v
  lookup-put_self k v d = ground (arith, lookup-put k k v d, e.beq_iff k k)

  pub lookup-put_ne : (k j : K) (v : V) (d : Dict K V) → k ≢ j → lookup j (put k v d) ≡ lookup j d
  lookup-put_ne k j v d h = ground (arith, lookup-put k j v d, e.beq_iff k j)
