-- ===== src/Processes/Selection.antt =====
-- Which processes the overview shows.
use node_debug_dashboard.Prelude.{
  ℕ, zero, suc, ◌≤◌, ◌≡◌, refl, sym, ap, arith, ◌⊎◌, inl, inr, Bool, true, false, not, Bool-cases,
  ◌==◌, ==_iff, List, [], ◌∷◌, take, keep, length, length-append, All, In, In-append,
  In-append_left, In-append_right, In-keep, keep-In, sort_by, IsSorted, sort_by-IsSorted,
  In-sort_by, sort_by-In,
}
use mathlib.Core.Path.{subst}
use node_debug_dashboard.Models.Processes.{ProcessInfo}
use node_debug_dashboard.Processes.{
  more_cpu, more_mem, has_pid, top_by_mem, top_by_cpu, top_processes,
}

module _ {A : Type 0} where
  length-take-le : (n : ℕ) (xs : List A) → length (take n xs) ≤ n
  length-take-le zero xs = omega arith
  length-take-le (suc n) [] = omega arith
  length-take-le (suc n) (x ∷ xs) = omega (arith, length-take-le n xs)

  length-keep-le : (p : A → Bool) (xs : List A) → length (keep p xs) ≤ length xs
  length-keep-le p [] = omega arith
  length-keep-le p (x ∷ xs) = ground (arith, length-keep-le p xs)

  In-take : (n : ℕ) (x : A) (xs : List A) → In x (take n xs) → In x xs
  In-take zero x xs i = absurd i
  In-take (suc n) x [] i = absurd i
  In-take (suc n) x (y ∷ ys) (inl e) = inl e
  In-take (suc n) x (y ∷ ys) (inr i) = inr (In-take n x ys i)

  -- Of a sorted list, an element is among the first ones or in front of none of them.
  take-IsSorted :
      (lt : A → A → Bool) (n : ℕ) (p : A) (xs : List A)
      → IsSorted lt xs
      → In p xs
      → In p (take n xs) ⊎ All (λ q. lt p q ≡ false) (take n xs)
  unfolding IsSorted
  take-IsSorted lt zero p xs h i = inr tt
  take-IsSorted lt (suc n) p [] h i = absurd i
  take-IsSorted lt (suc n) p (x ∷ xs) h (inl e) = inl (inl e)
  take-IsSorted lt (suc n) p (x ∷ xs) h (inr i) = elim (take-IsSorted lt n p xs h.1 i) [
    | inl j ↦ inl (inr j)
    | inr all ↦ inr (All-In (λ y. lt y x ≡ false) p xs h.0 i, all)
  ]
    where
      All-In : (P : A → Type 0) (p : A) (xs : List A) → All P xs → In p xs → P p
      All-In P p [] all i = absurd i
      All-In P p (x ∷ xs) all (inl e) = subst P (sym e) all.0
      All-In P p (x ∷ xs) all (inr i) = All-In P p xs all.1 i

any-In :
    (p : ProcessInfo) (xs : List ProcessInfo)
    → has_pid xs p ≡ true
    → (q : ProcessInfo) × In q xs × (q.pid ≡ p.pid)
any-In p [] h = cc
any-In p (x ∷ xs) h = elim (Bool-cases (x.pid == p.pid)) [
  | inl e ↦ (x, inl refl, (==_iff x.pid p.pid).0 e)
  | inr e ↦ let (q, i, same) = any-In p xs (ground (arith, h, e)) in (q, inr i, same)
]

abbrev pub by_mem : List ProcessInfo → List ProcessInfo
by_mem ps = take top_by_mem (sort_by more_mem ps)

abbrev pub by_cpu : List ProcessInfo → List ProcessInfo
by_cpu ps = take top_by_cpu (sort_by more_cpu ps)

more_mem-IsSorted : (ps : List ProcessInfo) → IsSorted more_mem (sort_by more_mem ps)
more_mem-IsSorted =
    sort_by-IsSorted more_mem (λ x y h. ground (arith, h)) (λ x y z h k. ground (arith, h, k))

more_cpu-IsSorted : (ps : List ProcessInfo) → IsSorted more_cpu (sort_by more_cpu ps)
more_cpu-IsSorted =
    sort_by-IsSorted more_cpu (λ x y h. ground (arith, h)) (λ x y z h k. ground (arith, h, k))

-- A process is shown, under its pid, or is beaten in memory and in CPU by all that made the cut.
abbrev pub IsPlaced : List ProcessInfo → ProcessInfo → Type 0
IsPlaced ps p =
    ((q : ProcessInfo) × In q (top_processes ps) × (q.pid ≡ p.pid))
    ⊎ (All (λ q. more_mem p q ≡ false) (by_mem ps) × All (λ q. more_cpu p q ≡ false) (by_cpu ps))

-- Of any processes: each one is shown, itself or another with its pid, or uses no more memory than any
-- of the 200 first by memory and no more CPU than any of the 50 first by CPU; only processes of the
-- list are shown; and they are 250 at most.
pub top_processes-heaviest :
    (ps : List ProcessInfo)
    → ((p : ProcessInfo) → In p ps → IsPlaced ps p)
      × ((p : ProcessInfo) → In p (top_processes ps) → In p ps)
      × (length (top_processes ps) ≤ 250)
unfolding top_processes
top_processes-heaviest ps =
    let rest = keep (λ p. not (has_pid (by_mem ps) p)) (by_cpu ps) in
    (
      λ p i.
          placed p
            (take-IsSorted more_mem top_by_mem p (sort_by more_mem ps) (more_mem-IsSorted ps)
              (sort_by-In more_mem p ps i))
            (take-IsSorted more_cpu top_by_cpu p (sort_by more_cpu ps) (more_cpu-IsSorted ps)
              (sort_by-In more_cpu p ps i)),
      λ p i. elim (In-append p (by_mem ps) rest i) [
        | inl j ↦ In-sort_by more_mem p ps (In-take top_by_mem p (sort_by more_mem ps) j)
        | inr j ↦ In-sort_by more_cpu p ps (
            In-take top_by_cpu p (sort_by more_cpu ps)
              (In-keep (λ p. not (has_pid (by_mem ps) p)) p (by_cpu ps) j).0)
      ],
      omega (
        arith,
        length-append (by_mem ps) rest,
        length-take-le top_by_mem (sort_by more_mem ps),
        length-keep-le (λ p. not (has_pid (by_mem ps) p)) (by_cpu ps),
        length-take-le top_by_cpu (sort_by more_cpu ps),
      ),
    )
  where
    placed :
        (p : ProcessInfo)
        → In p (by_mem ps) ⊎ All (λ q. more_mem p q ≡ false) (by_mem ps)
        → In p (by_cpu ps) ⊎ All (λ q. more_cpu p q ≡ false) (by_cpu ps)
        → IsPlaced ps p
    placed p (inl i) c = inl (
      p,
      In-append_left p (by_mem ps) (keep (λ p. not (has_pid (by_mem ps) p)) (by_cpu ps)) i,
      refl,
    )
    placed p (inr m) (inr c) = inr (m, c)
    placed p (inr m) (inl i) = elim (Bool-cases (has_pid (by_mem ps) p)) [
      | inl b ↦
          let (q, j, same) = any-In p (by_mem ps) b in
          inl (
            q,
            In-append_left q (by_mem ps) (keep (λ p. not (has_pid (by_mem ps) p)) (by_cpu ps)) j,
            same,
          )
      | inr b ↦ inl (
        p,
        In-append_right p (by_mem ps) (keep (λ p. not (has_pid (by_mem ps) p)) (by_cpu ps))
            (keep-In (λ p. not (has_pid (by_mem ps) p)) p (by_cpu ps) i (ap not b)),
        refl,
      )
    ]
