-- ===== src/Containers/Partition.antt =====
-- Each container is in one of the two lists.
use node_debug_dashboard.Prelude.{
  ℕ, ◌+◌, ◌≡◌, refl, sym, ap, ◌∙◌, arith, inl, inr, Bool, true, false, not, some, Option-cases,
  List, [], ◌∷◌, length, keep, In, keep-In, Text, traverse, length-traverse, traverse-In, sort_by,
  length-sort_by, sort_by-In, IsSorted, sort_by-IsSorted, Dict,
}
use mathlib.Core.Path.{subst}
use node_debug_dashboard.Json.{Json, required_text}
use node_debug_dashboard.Models.Containers.{SystemContainer, WorkloadContainer}
use node_debug_dashboard.Kubernetes.Cluster.{text_lt_asym, text_lt_connected}
use node_debug_dashboard.Containers.{
  Item, Listing, common_of, items_of, get_stats, system_of, workload_of, by_name_lt, workload_lt,
  collect_system_containers, collect_workload_containers,
}

length-keep :
    (p : Item → Bool) (xs : List Item)
    → length (keep p xs) + length (keep (λ i. not (p i)) xs) ≡ length xs
length-keep p [] = refl
length-keep p (x ∷ xs) = ground (arith, length-keep p xs)

system_of-id :
    (now : ℕ) (st : Dict Text Json) (i : Item) (c : SystemContainer)
    → system_of now st i ≡ some c
    → c.container_id ≡ i.cid
unfolding system_of
system_of-id now st i c h = elim (Option-cases (common_of now st i)) [
  | inl a ↦ cc
  | inr (common, a) ↦ elim (Option-cases (required_text i.name)) [ inl b ↦ cc | inr (name, b) ↦ cc ]
]

workload_of-id :
    (now : ℕ) (st : Dict Text Json) (i : Item) (c : WorkloadContainer)
    → workload_of now st i ≡ some c
    → c.container_id ≡ i.cid
unfolding workload_of
workload_of-id now st i c h = elim (Option-cases (common_of now st i)) [
  | inl a ↦ cc
  | inr (common, a) ↦ elim (Option-cases (required_text i.pod.name)) [
    | inl b ↦ cc
    | inr (pod_name, b) ↦ elim (Option-cases (required_text i.pod.namespace)) [
      | inl d ↦ cc
      | inr (namespace, d) ↦ elim (Option-cases (required_text i.name)) [
        | inl e ↦ cc
        | inr (name, e) ↦ cc
      ]
    ]
  ]
]

-- What the two collectors list, by the items that they share.
module _ (now : ℕ) (l : Listing) (all_items : List Item) (sys : List SystemContainer)
    (work : List WorkloadContainer) (read : items_of l ≡ some all_items)
    (some_sys : collect_system_containers now l ≡ some sys)
    (some_work : collect_workload_containers now l ≡ some work) where
  abbrev systems : List Item
  systems = keep (λ i. i.is_system) all_items

  abbrev workloads : List Item
  workloads = keep (λ i. not i.is_system) all_items

  system_list :
      (stats : Dict Text Json) × (result : List SystemContainer) × (traverse
          (system_of now stats)
          systems
        ≡ some result)
      × (sort_by by_name_lt result ≡ sys)
  unfolding collect_system_containers
  system_list = elim (Option-cases (get_stats l.stats)) [
    | inl a ↦ absurd (ground (arith, read, some_sys, a))
    | inr (stats, a) ↦ elim (Option-cases (traverse (system_of now stats) systems)) [
      | inl b ↦ absurd (ground (arith, read, some_sys, a, b))
      | inr (result, b) ↦ (stats, result, b, ground (arith, read, some_sys, a, b))
    ]
  ]

  workload_list :
      (stats : Dict Text Json) × (result : List WorkloadContainer) × (traverse
          (workload_of now stats)
          workloads
        ≡ some result)
      × (sort_by workload_lt result ≡ work)
  unfolding collect_workload_containers
  workload_list = elim (Option-cases (get_stats l.stats)) [
    | inl a ↦ absurd (ground (arith, read, some_work, a))
    | inr (stats, a) ↦ elim (Option-cases (traverse (workload_of now stats) workloads)) [
      | inl b ↦ absurd (ground (arith, read, some_work, a, b))
      | inr (result, b) ↦ (stats, result, b, ground (arith, read, some_work, a, b))
    ]
  ]

  -- Where both lists are collected from the same answers: together they are as long as the list of
  -- containers, each container of the system is in the first by its id and each other one in the
  -- second, and the first is sorted by name.
  pub collect_containers-listed :
      (length sys + length work ≡ length all_items)
      × ((i : Item)
          → In i all_items
          → i.is_system ≡ true
          → (c : SystemContainer) × In c sys × (c.container_id ≡ i.cid))
      × ((i : Item)
          → In i all_items
          → i.is_system ≡ false
          → (c : WorkloadContainer) × In c work × (c.container_id ≡ i.cid))
      × IsSorted by_name_lt sys
  collect_containers-listed =
      let (st, rs, a, b) = system_list in
      let (wt, ws, c, d) = workload_list in
      (
        length_lem rs ws (sym (ap length b) ∙ length-sort_by by_name_lt rs)
            (sym (ap length d) ∙ length-sort_by workload_lt ws)
            (length-traverse (system_of now st) systems rs a)
            (length-traverse (workload_of now wt) workloads ws c),
        λ i m t.
            let (x, e, k) =
              traverse-In (system_of now st) i systems rs a
                (keep-In (λ i. i.is_system) i all_items m t) in
            (x, subst (In x) b (sort_by-In by_name_lt x rs k), system_of-id now st i x e),
        λ i m t.
            let (x, e, k) =
              traverse-In (workload_of now wt) i workloads ws c
                (keep-In (λ i. not i.is_system) i all_items m (ap not t)) in
            (x, subst (In x) d (sort_by-In workload_lt x ws k), workload_of-id now wt i x e),
        subst (IsSorted by_name_lt) b (
            sort_by-IsSorted by_name_lt (λ x y. text_lt_asym x.name y.name)
              (λ x y z. text_lt_connected x.name y.name z.name) rs),
      )
    where
      length_lem :
          (rs : List SystemContainer) (ws : List WorkloadContainer)
          → length sys ≡ length rs
          → length work ≡ length ws
          → length rs ≡ length systems
          → length ws ≡ length workloads
          → length sys + length work ≡ length all_items
      length_lem rs ws a b c d = omega (arith, a, b, c, d, length-keep (λ i. i.is_system) all_items)
