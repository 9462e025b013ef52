-- ===== src/Storage/Mounts/Shortest.antt =====
-- Of the mounts of a device, the dictionary of the loop keeps one with a shortest mount point.
use node_debug_dashboard.Prelude.{
  ◌≡◌, refl, sym, ap, ◌∙◌, arith, ◌≤◌, ◌⊎◌, inl, inr, true, false, not, ◌||◌, Bool-cases, none,
  some, Option-cases, bind_some, List, [], ◌∷◌, length, In, filter_map, ltb, Text, text_eq,
  text_eq_iff, lit, Dict, str_eq, lookup, put, lookup-put, lookup-put_self,
}
use mathlib.Core.Path.{subst}
use node_debug_dashboard.Dmesg.Scan.{splitlines}
use node_debug_dashboard.Storage.Mounts.{
  Mount, Entry, Seen, nothing_seen, is_skipped, is_read_only, is_overlay, keep_shortest, add_mount,
  add_entry, read_entry, add_lines, mounts_by_dev,
}

-- The filesystem can be filled, and is not mounted read-only.
abbrev pub IsUsable : Entry → Type 0
IsUsable e =
    (is_skipped e.mount ≡ false) × (o : Text) × (e.options ≡ some o) × (is_read_only o ≡ false)

-- A device has a mount in the table that is no longer than this one.
abbrev pub Covers : Text → Mount → Dict Text Mount → Type 0
Covers dev m by_dev = (n : Mount) × (lookup dev by_dev ≡ some n) × (length n.point ≤ length m.point)

keep_shortest_self :
    (dev : Text) (m : Mount) (d : Dict Text Mount) → Covers dev m (keep_shortest dev m d)
unfolding keep_shortest
keep_shortest_self dev m d = elim (Option-cases (lookup dev d)) [
  | inl e ↦ rw e (m, lookup-put_self dev m d, omega arith)
  | inr (p, e) ↦ elim (Bool-cases (ltb (length m.point) (length p.point))) [
    | inl t ↦ rw (e, t) (m, lookup-put_self dev m d, omega arith)
    | inr t ↦ rw (e, t) (p, e, ground (arith, t))
  ]
]

put-Covers :
    (dev k : Text) (m n : Mount) (d : Dict Text Mount)
    → Covers dev n d
    → (text_eq k dev ≡ true → length m.point ≤ length n.point)
    → Covers dev n (put k m d)
put-Covers dev k m n d (p, e, le) shorter = elim (Bool-cases (text_eq k dev)) [
  | inl t ↦ (m, lookup-put k dev m d ∙ rw t refl, shorter t)
  | inr t ↦ (p, lookup-put k dev m d ∙ rw t e, le)
]

keep_shortest-Covers :
    (dev k : Text) (m n : Mount) (d : Dict Text Mount)
    → Covers dev n d
    → Covers dev n (keep_shortest k m d)
unfolding keep_shortest
keep_shortest-Covers dev k m n d (p, e, le) = elim (Option-cases (lookup k d)) [
  | inl a ↦ rw a (
      put-Covers dev k m n d (p, e, le)
        (λ t. absurd (none_lem (sym a ∙ ap (λ x. lookup x d) ((text_eq_iff k dev).0 t) ∙ e))))
  | inr (q, a) ↦ elim (Bool-cases (ltb (length m.point) (length q.point))) [
    | inl t ↦
        rw (a, t)
          (put-Covers dev k m n d (p, e, le)
            (λ s.
              let same : some q ≡ some p =
                sym a ∙ ap (λ x. lookup x d) ((text_eq_iff k dev).0 s) ∙ e in
              let point : length q.point ≡ length p.point = some_point q p same in
              ground (arith, t, point, le)))
    | inr t ↦ rw (a, t) (p, e, le)
  ]
]
  where
    none_lem : {p : Mount} → none ≡ some p → ⊥
    none_lem h = cc

    some_point : (q p : Mount) → some q ≡ some p → length q.point ≡ length p.point
    some_point q p h = cc

add_mount-Covers :
    (dev k : Text) (m n : Mount) (seen : Seen)
    → Covers dev n seen.by_dev
    → Covers dev n (add_mount k m seen).by_dev
unfolding add_mount
add_mount-Covers dev k m n seen c = elim (Bool-cases (is_overlay m)) [
  | inr o ↦ rw o (keep_shortest-Covers dev k m n seen.by_dev c)
  | inl o ↦ elim (Bool-cases (seen.overlay_seen || not (text_eq m.point (lit "/")))) [
    | inl t ↦ rw (o, t) c
    | inr t ↦ rw (o, t) (keep_shortest-Covers dev k m n seen.by_dev c)
  ]
]

add_entry-Covers :
    (dev : Text) (n : Mount) (e : Entry) (seen next : Seen)
    → add_entry e seen ≡ some next
    → Covers dev n seen.by_dev
    → Covers dev n next.by_dev
unfolding add_entry
add_entry-Covers dev n e seen next h c =
    ground (arith, h, c, add_mount-Covers dev e.dev e.mount n seen c)

add_lines-Covers :
    (dev : Text) (n : Mount) (lines : List Text) (seen end : Seen)
    → add_lines lines seen ≡ some end
    → Covers dev n seen.by_dev
    → Covers dev n end.by_dev
unfolding add_lines
add_lines-Covers dev n [] seen end h c = ground (arith, h, c)
add_lines-Covers dev n (line ∷ lines) seen end h c = elim (Option-cases (read_entry line)) [
  | inl e ↦ add_lines-Covers dev n lines seen end (rw e at h) c
  | inr (entry, e) ↦
      let (next, a, b) = bind_some (add_entry entry seen) (add_lines lines) end (rw e at h) in
      add_lines-Covers dev n lines next end b (add_entry-Covers dev n entry seen next a c)
]

-- A usable mount that is no overlay is in the table once its line was read.
add_entry_self :
    (e : Entry) (seen next : Seen)
    → IsUsable e
    → is_overlay e.mount ≡ false
    → add_entry e seen ≡ some next
    → Covers e.dev e.mount next.by_dev
unfolding add_entry add_mount
add_entry_self e seen next (s, o, a, r) v h =
    ground (arith, s, a, r, v, h, keep_shortest_self e.dev e.mount seen.by_dev)

add_lines-reads :
    (e : Entry) (lines : List Text) (seen end : Seen)
    → add_lines lines seen ≡ some end
    → In e (filter_map read_entry lines)
    → IsUsable e
    → is_overlay e.mount ≡ false
    → Covers e.dev e.mount end.by_dev
unfolding add_lines
add_lines-reads e [] seen end h i u v = absurd i
add_lines-reads e (line ∷ lines) seen end h i u v = elim (Option-cases (read_entry line)) [
  | inl n ↦ add_lines-reads e lines seen end (rw n at h) (rw (n, In) at i) u v
  | inr (entry, n) ↦
      let (next, a, b) = bind_some (add_entry entry seen) (add_lines lines) end (rw n at h) in
      elim (here_or entry line lines n i) [
        | inl p ↦
            add_lines-Covers e.dev e.mount lines next end b
              (add_entry_self e seen next u v (ap (λ x. add_entry x seen) p ∙ a))
        | inr j ↦ add_lines-reads e lines next end b j u v
      ]
]
  where
    here_or :
        (entry : Entry) (line : Text) (lines : List Text)
        → read_entry line ≡ some entry
        → In e (filter_map read_entry (line ∷ lines))
        → (e ≡ entry) ⊎ In e (filter_map read_entry lines)
    here_or entry line lines n i = rw (n, In) at i

-- What the table holds came from a usable line.
module _ (P : Text → Mount → Type 0) where
  abbrev AllFrom : Dict Text Mount → Type 0
  AllFrom d = (dev : Text) (m : Mount) → lookup dev d ≡ some m → P dev m

  keep_shortest-AllFrom :
      (k : Text) (m : Mount) (d : Dict Text Mount)
      → P k m
      → AllFrom d
      → AllFrom (keep_shortest k m d)
  unfolding keep_shortest
  keep_shortest-AllFrom k m d p all dev n h = elim (Bool-cases (text_eq k dev)) [
    | inl t ↦ by_key ((text_eq_iff k dev).0 t)
    | inr t ↦ ground (arith, h, t, lookup-put k dev m d, all dev n)
  ]
    where
      by_key : k ≡ dev → P dev n
      by_key q = ground (arith, h, q, lookup-put k dev m d, all dev n, p)

  add_entry-AllFrom :
      (e : Entry) (seen next : Seen)
      → (IsUsable e → P e.dev e.mount)
      → add_entry e seen ≡ some next
      → AllFrom seen.by_dev
      → AllFrom next.by_dev
  unfolding add_entry add_mount
  add_entry-AllFrom e seen next p h all dev m l = elim (Bool-cases (is_skipped e.mount)) [
    | inl s ↦ ground (arith, h, s, l, all dev m)
    | inr s ↦ elim (Option-cases e.options) [
      | inl o ↦ absurd (ground (arith, h, s, o))
      | inr (options, o) ↦ elim (Bool-cases (is_read_only options)) [
        | inl r ↦ ground (arith, h, s, o, r, l, all dev m)
        | inr r ↦ ground (
          arith,
          h,
          s,
          o,
          r,
          l,
          all dev m,
          keep_shortest-AllFrom e.dev e.mount seen.by_dev (p (s, options, o, r)) all dev m,
        )
      ]
    ]
  ]

  add_lines-AllFrom :
      (lines : List Text) (seen end : Seen)
      → ((e : Entry) → In e (filter_map read_entry lines) → IsUsable e → P e.dev e.mount)
      → add_lines lines seen ≡ some end
      → AllFrom seen.by_dev
      → AllFrom end.by_dev
  unfolding add_lines
  add_lines-AllFrom [] seen end p h all = λ dev m l. ground (arith, h, l, all dev m)
  add_lines-AllFrom (line ∷ lines) seen end p h all = elim (Option-cases (read_entry line)) [
    | inl n ↦ add_lines-AllFrom lines seen end (λ e i. p e (rw (n, In) i)) (rw n at h) all
    | inr (entry, n) ↦
        let (next, a, b) = bind_some (add_entry entry seen) (add_lines lines) end (rw n at h) in
        add_lines-AllFrom lines next end (λ e i. p e (rw (n, In) (inr i))) b
          (add_entry-AllFrom entry seen next (p entry (rw (n, In) (inl refl))) a all)
  ]

abbrev pub entries_in : Text → List Entry
entries_in info = filter_map read_entry (splitlines info)

-- Whatever the mount table says, if it is read at all: a mount that the result has for a device
-- stands in a usable line of that device, and no usable line of the device, overlays aside, has a
-- shorter mount point; each device with such a line has a mount in the result.
pub parse_mountinfo-shortest :
    (info : Text) (by_dev : Dict Text Mount)
    → mounts_by_dev info ≡ some by_dev
    → ((dev : Text) (m : Mount)
        → lookup dev by_dev ≡ some m
        → (e : Entry) × In e (entries_in info) × IsUsable e × (e.dev ≡ dev) × (e.mount ≡ m))
      × ((e : Entry)
          → In e (entries_in info)
          → IsUsable e
          → is_overlay e.mount ≡ false
          → Covers e.dev e.mount by_dev)
unfolding mounts_by_dev
parse_mountinfo-shortest info by_dev h =
    let (end, a, b) =
      bind_some (add_lines (splitlines info) nothing_seen) (λ seen. some seen.by_dev) by_dev h in
    let same : end.by_dev ≡ by_dev = some_lem end.by_dev b in
    (
      λ dev m l.
          add_lines-AllFrom
            (λ dev m.
              (e : Entry) × In e (entries_in info) × IsUsable e × (e.dev ≡ dev) × (e.mount ≡ m))
            (splitlines info) nothing_seen end (λ e i u. (e, i, u, refl, refl)) a (λ dev m l. cc)
            dev m (ap (λ d. lookup dev d) same ∙ l),
      λ e i u v.
          subst (Covers e.dev e.mount) same
            (add_lines-reads e (splitlines info) nothing_seen end a i u v),
    )
  where
    some_lem : (d : Dict Text Mount) → some d ≡ some by_dev → d ≡ by_dev
    some_lem d h = cc
