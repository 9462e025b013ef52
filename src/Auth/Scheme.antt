-- ===== src/Auth/Scheme.antt =====
-- `_split_scheme`: a scheme, one space and credentials come apart again, and white space at the end
-- of the credentials is lost.
use node_debug_dashboard.Prelude.{
  ℕ, ◌≡◌, refl, ap, ◌∙◌, ◌&&◌, true, false, [], ◌∷◌, ◌++◌, arith, Text, is_empty, is_space, strip,
  lstrip, rstrip, span_word, lower, All, Bool-cases, inl, inr, length, length-append, ◌≢◌, ◌≤◌,
}
use node_debug_dashboard.Auth.{split_scheme, scheme_parts}

abbrev pub IsWordChar : ℕ → Type 0
IsWordChar c = is_space c ≡ false

is_empty-append : (s t : Text) → is_empty t ≡ false → is_empty (s ++ t) ≡ false
is_empty-append [] t h = h
is_empty-append (c ∷ s) t h = refl

pub rstrip-append : (s t : Text) → is_empty (rstrip t) ≡ false → rstrip (s ++ t) ≡ s ++ rstrip t
unfolding rstrip
rstrip-append [] t h = refl
rstrip-append (c ∷ s) t h =
    rw (rstrip-append s t h) (rw (is_empty-append s (rstrip t) h) (ground arith))

span_word-append : (w t : Text) → All IsWordChar w → span_word (w ++ b' ' ∷ t) ≡ (w, b' ' ∷ t)
unfolding span_word
span_word-append [] t h = unfold is_space in refl
span_word-append (c ∷ w) t h = rw (h.0) (rw (span_word-append w t h.1))

lstrip-word : (c : ℕ) (s : Text) → IsWordChar c → lstrip (c ∷ s) ≡ c ∷ s
unfolding lstrip
lstrip-word c s h = rw h

lstrip-space : (s : Text) → lstrip (b' ' ∷ s) ≡ lstrip s
unfolding lstrip
lstrip-space s = refl

rstrip_idem : (s : Text) → rstrip (rstrip s) ≡ rstrip s
unfolding rstrip
rstrip_idem [] = refl
rstrip_idem (c ∷ s) = ground (arith, rstrip_idem s)

rstrip-word : (c : ℕ) (s : Text) → IsWordChar c → rstrip (c ∷ s) ≡ c ∷ rstrip s
unfolding rstrip
rstrip-word c s h = rw h

-- The header of a scheme and credentials: the scheme comes in lower case, and the credentials lose
-- the white space at their end.
pub split_scheme-append :
    (c : ℕ) (w : Text) (d : ℕ) (u : Text)
    → All IsWordChar (c ∷ w)
    → IsWordChar d
    → split_scheme ((c ∷ w) ++ b' ' ∷ d ∷ u) ≡ (lower (c ∷ w), d ∷ rstrip u)
unfolding split_scheme strip
split_scheme-append c w d u h hd =
    let ends : rstrip (b' ' ∷ d ∷ u) ≡ b' ' ∷ d ∷ rstrip u =
      rstrip-append (b' ' ∷ []) (d ∷ u) (rw (rstrip-word d u hd))
      ∙ ap (λ s. b' ' ∷ s) (rstrip-word d u hd) in
    let stripped : rstrip ((c ∷ w) ++ b' ' ∷ d ∷ u) ≡ (c ∷ w) ++ b' ' ∷ d ∷ rstrip u =
      rstrip-append (c ∷ w) (b' ' ∷ d ∷ u) (rw ends) ∙ ap (λ s. (c ∷ w) ++ s) ends in
    rw (lstrip-word c (w ++ b' ' ∷ d ∷ u) h.0) (
      rw stripped (
        rw (lstrip-word c (w ++ b' ' ∷ d ∷ rstrip u) h.0) (
          rw (span_word-append (c ∷ w) (d ∷ rstrip u) h) (
            rw (lstrip-space (d ∷ rstrip u)) (
              rw (lstrip-word d (rstrip u) hd) (
                rw (lstrip-word d (rstrip u) hd)
                  (rw (rstrip-word d (rstrip u) hd) (rw (rstrip_idem u)))))))))

pub rstrip-words : (s : Text) → All IsWordChar s → rstrip s ≡ s
unfolding rstrip
rstrip-words [] h = refl
rstrip-words (c ∷ s) h = rw (h.0) (ap (λ r. c ∷ r) (rstrip-words s h.1))

-- Stripping and splitting keep what holds of every character.
module _ (P : ℕ → Type 0) where
  All-lstrip : (s : Text) → All P s → All P (lstrip s)
  unfolding lstrip
  All-lstrip [] h = tt
  All-lstrip (c ∷ s) h = elim (Bool-cases (is_space c)) [
    | inl e ↦ rw e (All-lstrip s h.1)
    | inr e ↦ rw e h
  ]

  pub All-rstrip : (s : Text) → All P s → All P (rstrip s)
  unfolding rstrip
  All-rstrip [] h = tt
  All-rstrip (c ∷ s) h = elim (Bool-cases (is_space c && is_empty (rstrip s))) [
    | inl e ↦ rw e tt
    | inr e ↦ rw e (h.0, All-rstrip s h.1)
  ]

  All-span_word : (s : Text) → All P s → All P (span_word s).1
  unfolding span_word
  All-span_word [] h = tt
  All-span_word (c ∷ s) h = elim (Bool-cases (is_space c)) [
    | inl e ↦ rw e h
    | inr e ↦ rw e (All-span_word s h.1)
  ]

  All-scheme_parts : (p : Text × Text) → All P p.1 → All P (scheme_parts p).1
  unfolding scheme_parts strip
  All-scheme_parts (w, rest) h = elim (Bool-cases (is_empty (lstrip rest))) [
    | inl e ↦ rw e tt
    | inr e ↦ rw e (All-rstrip _ (All-lstrip _ (All-lstrip rest h)))
  ]

  pub All-split_scheme : (s : Text) → All P s → All P (split_scheme s).1
  unfolding split_scheme strip
  All-split_scheme s h =
      All-scheme_parts _ (All-span_word _ (All-lstrip _ (All-rstrip _ (All-lstrip s h))))

-- Credentials carry no white space at their end.
rstrip-scheme_parts : (p : Text × Text) → rstrip (scheme_parts p).1 ≡ (scheme_parts p).1
unfolding scheme_parts strip
rstrip-scheme_parts (w, rest) = elim (Bool-cases (is_empty (lstrip rest))) [
  | inl e ↦ rw e (unfold rstrip in refl)
  | inr e ↦ rw e (rstrip_idem (lstrip (lstrip rest)))
]

pub rstrip-split_scheme : (s : Text) → rstrip (split_scheme s).1 ≡ (split_scheme s).1
unfolding split_scheme
rstrip-split_scheme s = rstrip-scheme_parts (span_word (lstrip (strip s)))

length-rstrip-le : (s : Text) → length (rstrip s) ≤ length s
unfolding rstrip
length-rstrip-le [] = omega arith
length-rstrip-le (c ∷ s) = ground (arith, length-rstrip-le s)

rstrip-concat_space : (s : Text) (w : ℕ) → is_space w ≡ true → rstrip (s ++ w ∷ []) ≡ rstrip s
unfolding rstrip
rstrip-concat_space [] w h = rw h
rstrip-concat_space (c ∷ s) w h = rw (rstrip-concat_space s w h)

-- A text that ends in white space is not what stripping leaves.
pub concat_space-ne_rstrip :
    (s t : Text) (w : ℕ) → is_space w ≡ true → rstrip t ≡ t → t ≢ s ++ w ∷ []
concat_space-ne_rstrip s t w h r e =
    let kept : rstrip (s ++ w ∷ []) ≡ s ++ w ∷ [] = cc in
    absurd (
      omega (
        arith,
        ap length kept,
        ap length (rstrip-concat_space s w h),
        length-rstrip-le s,
        length-append s (w ∷ []),
      ))
