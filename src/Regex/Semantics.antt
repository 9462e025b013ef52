-- ===== src/Regex/Semantics.antt =====
-- The matcher finds exactly what a pattern means.
use node_debug_dashboard.Prelude.{
  ℕ, zero, suc, ◌≤◌, ◌<◌, ◌≡◌, ◌⊎◌, ◌↔◌, inl, inr, refl, sym, ap, Bool, true, not, Option, none,
  some, List, [], ◌∷◌, ◌++◌, ltb, if◌then◌else◌, keep, is_empty, length, Text, In, In-append,
  In-append_left, In-append_right, In-keep, keep-In, In-concat_map, concat_map-In, Bool-cases,
  arith, lt→ltb, ||_true,
}
use mathlib.Core.Path.{subst}
use node_debug_dashboard.Regex.{
  Re, empty, one, boundary, seq, alt, star, Position, at_boundary, step_over, repeat, ends,
  search_from, search_text,
}

pub data Star (R : Position → Position → Type 0) : Position → Position → Type 0 where
  done : {p : Position} → Star R p p
  more : {p q r : Position} → R p q → Star R q r → Star R p r

-- What a pattern means: it matches the text between two places.
abbrev pub Matches : Re → Position → Position → Type 0
Matches empty p q = q ≡ p
Matches (one test) p q = (c : ℕ) × (p.rest ≡ c ∷ q.rest) × (q.before ≡ some c) × (test c ≡ true)
Matches boundary p q = (q ≡ p) × (at_boundary p ≡ true)
Matches (seq a b) p q = (m : Position) × Matches a p m × Matches b m q
Matches (alt a b) p q = Matches a p q ⊎ Matches b p q
Matches (star a) p q = Star (Matches a) p q

-- A match that does not stay where it is leaves less text.
abbrev Moves : Position → Position → Type 0
Moves p q = (q ≡ p) ⊎ (length q.rest < length p.rest)

Moves-trans : {p q r : Position} → Moves p q → Moves q r → Moves p r
Moves-trans {p} {q} {r} (inl e) m = subst (λ x. Moves x r) e m
Moves-trans {p} {q} {r} (inr h) (inl e) =
    inr (subst (λ (x : Position). length x.rest < length p.rest) (sym e) h)
Moves-trans (inr h) (inr k) = inr (omega arith)

Star-Moves :
    (R : Position → Position → Type 0)
    → ((p q : Position) → R p q → Moves p q)
    → {p q : Position} → Star R p q
    → Moves p q
Star-Moves R h done = inl refl
Star-Moves R h (more {p} {q} {r} x s) = Moves-trans (h p q x) (Star-Moves R h s)

Matches-Moves : (r : Re) (p q : Position) → Matches r p q → Moves p q
Matches-Moves empty p q m = inl m
Matches-Moves (one test) p q (c, e, _, _) = inr (omega (arith, ap length e))
Matches-Moves boundary p q m = inl m.0
Matches-Moves (seq a b) p q (m, x, y) =
    Moves-trans {p = p} {q = m} {r = q} (Matches-Moves a p m x) (Matches-Moves b m q y)
Matches-Moves (alt a b) p q (inl x) = Matches-Moves a p q x
Matches-Moves (alt a b) p q (inr x) = Matches-Moves b p q x
Matches-Moves (star a) p q s = Star-Moves (Matches a) (Matches-Moves a) s

module _ (R : Position → Position → Type 0) (f : Position → List Position) where
  repeat_sound :
      ((p q : Position) → In q (f p) → R p q)
      → (n : ℕ) (p q : Position) → In q (repeat n f p)
      → Star R p q
  unfolding repeat
  repeat_sound h zero p q (inl e) = subst (Star R p) (sym e) done
  repeat_sound h zero p q (inr m) = absurd m
  repeat_sound h (suc n) p q (inl e) = subst (Star R p) (sym e) done
  repeat_sound h (suc n) p q (inr m) =
      let (x, near, far) =
        In-concat_map (repeat n f) q (keep (λ y. ltb (length y.rest) (length p.rest)) (f p)) m in
      more (h p x (In-keep (λ y. ltb (length y.rest) (length p.rest)) x (f p) near).0)
        (repeat_sound h n x q far)

  repeat-more :
      (n : ℕ) (p q r : Position)
      → Moves p q
      → In q (f p)
      → length p.rest ≤ n
      → ((m : ℕ) → length q.rest ≤ m → In r (repeat m f q))
      → In r (repeat n f p)
  unfolding repeat
  repeat-more n p q r (inl e) x fits ih =
      subst (λ z. In r (repeat n f z)) e
        (ih n (subst (λ (z : Position). length z.rest ≤ n) (sym e) fits))
  repeat-more zero p q r (inr lt) x fits ih = absurd (omega arith)
  repeat-more (suc n) p q r (inr lt) x fits ih =
      let shorter = λ (y : Position). ltb (length y.rest) (length p.rest) in
      inr (
        concat_map-In (repeat n f) q r (keep shorter (f p))
          (keep-In shorter q (f p) x (lt→ltb _ _ lt)) (ih n (omega arith)))

  repeat_complete :
      ((p q : Position) → R p q → In q (f p))
      → ((p q : Position) → R p q → Moves p q)
      → (n : ℕ) {p q : Position} → length p.rest ≤ n
      → Star R p q
      → In q (repeat n f p)
  unfolding repeat
  repeat_complete h moves zero fits done = inl refl
  repeat_complete h moves (suc n) fits done = inl refl
  repeat_complete h moves n fits (more {p} {q} {r} x s) =
      repeat-more n p q r (moves p q x) (h p q x) fits (λ m k. repeat_complete h moves m k s)

step_over_sound :
    (test : ℕ → Bool) (s : Text) (q : Position)
    → In q (step_over test s)
    → (c : ℕ) × (s ≡ c ∷ q.rest) × (q.before ≡ some c) × (test c ≡ true)
step_over_sound test [] q m = absurd m
step_over_sound test (c ∷ s) q m = elim (Bool-cases (test c)) [
  | inl t ↦
      found t (subst (λ b. In q (if b then record { before = some c; rest = s } ∷ [] else [])) t m)
  | inr t ↦
      absurd (subst (λ b. In q (if b then record { before = some c; rest = s } ∷ [] else [])) t m)
]
  where
    found :
        test c ≡ true
        → In q (record { before = some c; rest = s } ∷ [])
        → (d : ℕ) × (c ∷ s ≡ d ∷ q.rest) × (q.before ≡ some d) × (test d ≡ true)
    found t (inl e) =
        (c, ap (λ (z : Position). c ∷ z.rest) (sym e), ap (λ (z : Position). z.before) e, t)
    found t (inr h) = absurd h

step_over_complete :
    (test : ℕ → Bool) (s : Text) (q : Position) (c : ℕ)
    → s ≡ c ∷ q.rest
    → q.before ≡ some c
    → test c ≡ true
    → In q (step_over test s)
step_over_complete test s q c e b t =
    rw e (rw t (inl (λ i. record { before = b i; rest = q.rest })))

ends_sound : (r : Re) (p q : Position) → In q (ends r p) → Matches r p q
unfolding ends
ends_sound empty p q (inl e) = e
ends_sound empty p q (inr m) = absurd m
ends_sound (one test) p q m = step_over_sound test p.rest q m
ends_sound boundary p q m = elim (Bool-cases (at_boundary p)) [
  | inl t ↦ here t (subst (λ b. In q (if b then p ∷ [] else [])) t m)
  | inr t ↦ absurd (subst (λ b. In q (if b then p ∷ [] else [])) t m)
]
  where
    here : at_boundary p ≡ true → In q (p ∷ []) → (q ≡ p) × (at_boundary p ≡ true)
    here t (inl e) = (e, t)
    here t (inr h) = absurd h
ends_sound (seq a b) p q m =
    let (x, near, far) = In-concat_map (ends b) q (ends a p) m in
    (x, ends_sound a p x near, ends_sound b x q far)
ends_sound (alt a b) p q m = elim (In-append q (ends a p) (ends b p) m) [
  | inl l ↦ inl (ends_sound a p q l)
  | inr r ↦ inr (ends_sound b p q r)
]
ends_sound (star a) p q m = repeat_sound (Matches a) (ends a) (ends_sound a) (length p.rest) p q m

ends_complete : (r : Re) (p q : Position) → Matches r p q → In q (ends r p)
unfolding ends
ends_complete empty p q e = inl e
ends_complete (one test) p q (c, e, b, t) = step_over_complete test p.rest q c e b t
ends_complete boundary p q (e, t) = rw t (inl e)
ends_complete (seq a b) p q (x, near, far) =
    concat_map-In (ends b) x q (ends a p) (ends_complete a p x near) (ends_complete b x q far)
ends_complete (alt a b) p q (inl m) = In-append_left q (ends a p) (ends b p) (ends_complete a p q m)
ends_complete (alt a b) p q (inr m) =
    In-append_right q (ends a p) (ends b p) (ends_complete b p q m)
ends_complete (star a) p q s =
    repeat_complete (Matches a) (ends a) (ends_complete a) (Matches-Moves a) (length p.rest)
      (omega arith) s

-- The matcher ends a match at exactly the places where the pattern's meaning allows it: the fuel of
-- a repetition, the length of the text, and the skipping of empty rounds lose nothing.
pub ends_iff : (r : Re) (p q : Position) → In q (ends r p) ↔ Matches r p q
ends_iff r p q = (ends_sound r p q, ends_complete r p q)

abbrev pub last_before : Option ℕ → Text → Option ℕ
last_before prev [] = prev
last_before prev (c ∷ s) = last_before (some c) s

-- A match that starts somewhere in the text.
pub record Occurs (r : Re) (prev : Option ℕ) (s : Text) : Type 0 where
  pub skipped : Text
  pub left : Text
  pub whole : s ≡ skipped ++ left
  pub end : Position
  pub matched : Matches r (record { before = last_before prev skipped; rest = left }) end

nonempty-In : {A : Type 0} (xs : List A) → not (is_empty xs) ≡ true → (x : A) × In x xs
nonempty-In [] h = cc
nonempty-In (x ∷ xs) h = (x, inl refl)

In-nonempty : {A : Type 0} (x : A) (xs : List A) → In x xs → not (is_empty xs) ≡ true
In-nonempty x [] m = absurd m
In-nonempty x (y ∷ xs) m = refl

Occurs-here :
    (r : Re) (prev : Option ℕ) (s : Text)
    → not (is_empty (ends r (record { before = prev; rest = s }))) ≡ true
    → Occurs r prev s
Occurs-here r prev s h =
    let (q, m) = nonempty-In (ends r (record { before = prev; rest = s })) h in
    record { skipped = []; left = s; whole = refl; end = q; matched = ends_sound r _ q m }

search_sound : (r : Re) (prev : Option ℕ) (s : Text) → search_from r prev s ≡ true → Occurs r prev s
unfolding search_from
search_sound r prev [] h = Occurs-here r prev [] h
search_sound r prev (c ∷ s) h = elim (||_true _ (search_from r (some c) s) h) [
  | inl here ↦ Occurs-here r prev (c ∷ s) here
  | inr later ↦
      let o = search_sound r (some c) s later in
      record {
        skipped = c ∷ o.skipped;
        left = o.left;
        whole = ap (λ t. c ∷ t) o.whole;
        end = o.end;
        matched = o.matched;
      }
]

search_complete :
    (r : Re) (prev : Option ℕ) (skipped left : Text) (q : Position)
    → Matches r (record { before = last_before prev skipped; rest = left }) q
    → search_from r prev (skipped ++ left) ≡ true
unfolding search_from
search_complete r prev [] [] q m = In-nonempty q _ (ends_complete r _ q m)
search_complete r prev [] (c ∷ s) q m =
    rw (In-nonempty q (ends r (record { before = prev; rest = c ∷ s })) (ends_complete r _ q m))
      refl
search_complete r prev (c ∷ s) left q m = rw (search_complete r (some c) s left q m) (ground arith)

-- A search succeeds exactly if the pattern matches from some place of the text on.
pub search_text_iff : (r : Re) (s : Text) → (search_text r s ≡ true) ↔ Occurs r none s
unfolding search_text
search_text_iff r s = (
  search_sound r none s,
  λ o.
      subst (λ t. search_from r none t ≡ true) (sym o.whole)
        (search_complete r none o.skipped o.left o.end o.matched),
)
