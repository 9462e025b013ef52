-- ===== src/Kubernetes/Defrag.antt =====
-- When etcd's status asks for a defragmentation.
use Prim.Native.Nat.{◌≤◌, ◌<◌}
use native.Mathlib.Nat.{div-add-mod', mod-lt, add-mul}
use node_debug_dashboard.Prelude.{
  ℕ, ◌+◌, ◌-◌, ◌*◌, ◌/◌, ◌%◌, ◌≡◌, ◌↔◌, refl, arith, ◌==◌, if◌then◌else◌, some, Option-cases, lit,
  [], ◌∷◌, ◌⊎◌, inl, inr,
}
use node_debug_dashboard.Json.{Json, Fields, dict, end, get_or, fields_of}
use node_debug_dashboard.Models.Warnings.{warning, critical}
use node_debug_dashboard.Models.Kubernetes.{EtcdStatus}
use node_debug_dashboard.Kubernetes.{first_int}
use node_debug_dashboard.Kubernetes.Etcd.{
  round_div, defrag_level, sizes, sized, with_raft, first_nat, raft_term_of, parse_etcd_status,
  etcd_default_quota, quota_percent,
}

round_div-cases :
    (n d : ℕ)
    → ((round_div n d ≡ n / d) × (2 * (n % d) ≤ d))
      ⊎ ((round_div n d ≡ n / d + 1) × (d ≤ 2 * (n % d)))
unfolding round_div
round_div-cases n d = ground arith

-- A rounded quotient is at most half away from the quotient.
abbrev IsNear : ℕ → ℕ → ℕ → Type 0
IsNear n d q = (2 * (q * d) ≤ 2 * n + d) × (2 * n ≤ 2 * (q * d) + d)

round_div-IsNear : (n d : ℕ) → 0 < d → IsNear n d (round_div n d)
round_div-IsNear n d p = elim (round_div-cases n d) [
  | inl (e, half) ↦
      rw e (omega (arith, half, div-add-mod' n d), omega (arith, half, div-add-mod' n d))
  | inr (e, half) ↦ rw e (
    omega (arith, half, div-add-mod' n d, add-mul (n / d) 1 d),
    omega (arith, mod-lt n p, div-add-mod' n d, add-mul (n / d) 1 d),
  )
]

-- The limit that counts: the reported quota, or etcd's default.
abbrev pub limit_of : ℕ → ℕ
limit_of reported = if reported == 0 then etcd_default_quota else reported

limit_pos : (reported : ℕ) → 0 < limit_of reported
limit_pos reported = ground arith

severity-critical :
    (pct reclaimable in_use : ℕ) → (defrag_level pct reclaimable in_use ≡ critical) ↔ (800 ≤ pct)
unfolding defrag_level
severity-critical pct reclaimable in_use = ground arith

severity-warning :
    (pct reclaimable in_use : ℕ)
    → (defrag_level pct reclaimable in_use ≡ warning)
      ↔ ((500 ≤ pct) × (pct < 800) × (in_use < reclaimable))
unfolding defrag_level
severity-warning pct reclaimable in_use = ground arith

-- The severity of a status by its percentage, how near the percentage is to the share of the limit
-- that is used, and whether the limit is the default.
abbrev pub IsDefrag : EtcdStatus → ℕ × ℕ × ℕ → Type 0
IsDefrag st (size, in_use, quota) =
    ((st.defrag_severity ≡ critical) ↔ (800 ≤ st.quota_used_percent))
    × ((st.defrag_severity ≡ warning) ↔ (
        (500 ≤ st.quota_used_percent) × (st.quota_used_percent < 800) × (in_use < size - in_use)))
    × (2 * (st.quota_used_percent * limit_of quota) ≤ 2 * (size * 1000) + limit_of quota)
    × (2 * (size * 1000) ≤ 2 * (st.quota_used_percent * limit_of quota) + limit_of quota)
    × (st.quota_assumed ≡ (quota == 0))

sized-IsDefrag : (size in_use quota : ℕ) → IsDefrag (sized size in_use quota) (size, in_use, quota)
unfolding sized
sized-IsDefrag size in_use quota =
    let limit = limit_of quota in
    let pct = quota_percent size limit in
    let (low, high) = round_div-IsNear (size * 1000) limit (limit_pos quota) in
    (
      severity-critical pct (size - in_use) in_use,
      severity-warning pct (size - in_use) in_use,
      low,
      high,
      refl,
    )

with_raft-IsDefrag :
    (data_ : Json) (fs : Fields) (part st : EtcdStatus) (s : ℕ × ℕ × ℕ)
    → with_raft data_ fs part ≡ some st
    → IsDefrag part s
    → IsDefrag st s
unfolding with_raft
with_raft-IsDefrag data_ fs part st s e h =
    let header = get_or (dict end) (lit "header") fs in
    elim (Option-cases (first_int header (lit "member_id" ∷ lit "memberId" ∷ []))) [
      | inl a ↦ cc
      | inr (member, a) ↦ elim (Option-cases (first_int data_ (lit "leader" ∷ []))) [
        | inl b ↦ cc
        | inr (leader, b) ↦
            elim (Option-cases (first_nat data_ (lit "raftIndex" ∷ lit "raft_index" ∷ []))) [
              | inl c ↦ cc
              | inr (index, c) ↦ elim (Option-cases (raft_term_of data_ header)) [
                | inl d ↦ cc
                | inr (term, d) ↦
                    elim (Option-cases
                      (first_nat data_ (lit "raftAppliedIndex" ∷ lit "raft_applied_index" ∷ []))) [
                        | inl g ↦ cc
                        | inr (applied, g) ↦ ground (arith, e, a, b, c, d, g, h)
                      ]
              ]
            ]
      ]
    ]

-- For the sizes that a response has, and its percentage of the limit, which is rounded to one decimal:
-- the status is critical exactly if the rounded percentage is at least 80.0; it is a warning exactly
-- if the rounded percentage is at least 50.0 and below 80.0 and more than what is in use would be
-- reclaimed; the rounded percentage is at most half a tenth away from the share of the limit that the
-- file has; and the limit, which is the quota of the response or else 2 GiB, is marked as assumed
-- exactly if the quota is missing or zero.
pub parse_etcd_status-IsDefrag :
    (data_ : Json) (st : EtcdStatus) (s : ℕ × ℕ × ℕ)
    → parse_etcd_status data_ ≡ some st
    → sizes data_ ≡ some s
    → IsDefrag st s
unfolding parse_etcd_status
parse_etcd_status-IsDefrag data_ st (size, in_use, quota) h e =
    elim (Option-cases (fields_of data_)) [
      | inl n ↦ absurd (ground (arith, h, n))
      | inr (fs, n) ↦
          with_raft-IsDefrag data_ fs (sized size in_use quota) st (size, in_use, quota)
            (rw (n, e) at h) (sized-IsDefrag size in_use quota)
    ]
