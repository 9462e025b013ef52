-- ===== src/Kubernetes/Etcd.antt =====
-- The status of etcd, from its gateway's answers.
use node_debug_dashboard.Prelude.{
  ℕ, ◌+◌, ◌-◌, ◌*◌, ◌/◌, ◌%◌, true, false, not, ◌&&◌, Option, none, some, List, [], ◌∷◌, leb, ltb,
  ◌==◌, if◌then◌else◌, is_empty, Text, lit, text_eq, ℤ, pos, negsuc, is_zero_ℤ, show_int, ◌>>=◌,
}
use node_debug_dashboard.Json.{Json, Fields, text, dict, end, get_or, fields_of, str_of, repr}
use node_debug_dashboard.Models.Warnings.{Severity, ok, warning, critical}
use node_debug_dashboard.Models.Kubernetes.{EtcdStatus}
use node_debug_dashboard.Kubernetes.{first_int}

-- `ETCD_DEFAULT_QUOTA`
abbrev pub etcd_default_quota : ℕ
etcd_default_quota = 2_147_483_648

-- `n / d` rounded to a whole number, halves to the even one.
unfoldable pub round_div : ℕ → ℕ → ℕ
round_div n d =
    if ltb (2 * (n % d)) d
    then n / d
    else if ltb d (2 * (n % d))
    then n / d + 1
    else if n / d % 2 == 0
    then n / d
    else n / d + 1

-- `round(size / mb, 1)`, in tenths.
abbrev pub tenths_of_mb : ℕ → ℕ
tenths_of_mb size = round_div (size * 10) 1_048_576

-- `round(db_size / quota * 100, 1)`, in tenths, without the error of the float division.
abbrev pub quota_percent : ℕ → ℕ → ℕ
quota_percent db_size quota = round_div (db_size * 1000) quota

unfoldable pub defrag_level : ℕ → ℕ → ℕ → Severity
defrag_level quota_pct reclaimable db_in_use =
    if leb 800 quota_pct
    then critical
    else if leb 500 quota_pct && ltb db_in_use reclaimable
    then warning
    else ok

-- The numbers of etcd are not negative; a response with a negative one is outside the model.
abbrev pub natural : ℤ → Option ℕ
natural (pos n) = some n
natural (negsuc n) = none

unfoldable pub first_nat : Json → List Text → Option ℕ
unfolding first_int
first_nat v keys = do n ← first_int v keys; natural n

-- `str(n or "")`
unfoldable pub id_text : ℤ → Text
unfolding show_int
id_text n = if is_zero_ℤ n then [] else show_int n

abbrev or_nat : ℕ → ℕ → ℕ
or_nat a b = if a == 0 then b else a

-- The sizes that a response has: of the file, in use, and the quota.
unfoldable pub sizes : Json → Option (ℕ × ℕ × ℕ)
unfolding first_nat lit
sizes data_ = do
  db_size ← first_nat data_ (lit "dbSize" ∷ lit "db_size" ∷ [])
  db_in_use ← first_nat data_ (lit "dbSizeInUse" ∷ lit "db_size_in_use" ∷ [])
  quota ← first_nat data_ (lit "dbSizeQuota" ∷ lit "db_size_quota" ∷ [])
  some (db_size, db_in_use, quota)

-- The part of the status that depends on the sizes; the rest is still to be filled in.
unfoldable pub sized : ℕ → ℕ → ℕ → EtcdStatus
unfolding round_div defrag_level
sized db_size db_in_use reported =
    let quota = or_nat reported etcd_default_quota in
    let reclaimable = db_size - db_in_use in
    record {
      healthy = true;
      db_size_mb = tenths_of_mb db_size;
      db_size_in_use_mb = tenths_of_mb db_in_use;
      db_size_quota_mb = tenths_of_mb quota;
      quota_assumed = reported == 0;
      quota_used_percent = quota_percent db_size quota;
      defrag_reclaimable_mb = tenths_of_mb reclaimable;
      defrag_severity = defrag_level (quota_percent db_size quota) reclaimable db_in_use;
      version = [];
      leader_id = [];
      member_id = [];
      is_leader = false;
      raft_index = 0;
      raft_term = 0;
      raft_applied_index = 0;
      members = [];
    }

unfoldable pub raft_term_of : Json → Json → Option ℕ
unfolding first_nat lit
raft_term_of data_ header = do
  term ← first_nat data_ (lit "raftTerm" ∷ lit "raft_term" ∷ [])
  elim (term == 0) [
    | false ↦ some term
    | true ↦ first_nat header (lit "raft_term" ∷ lit "raftTerm" ∷ [])
  ]

-- The ids and the numbers of raft, added to the part that depends on the sizes.
unfoldable pub with_raft : Json → Fields → EtcdStatus → Option EtcdStatus
unfolding get_or lit first_nat first_int id_text raft_term_of repr text_eq
with_raft data_ fs part = do
  let header = get_or (dict end) (lit "header") fs
  member ← first_int header (lit "member_id" ∷ lit "memberId" ∷ [])
  leader ← first_int data_ (lit "leader" ∷ [])
  raft_index ← first_nat data_ (lit "raftIndex" ∷ lit "raft_index" ∷ [])
  raft_term ← raft_term_of data_ header
  raft_applied ← first_nat data_ (lit "raftAppliedIndex" ∷ lit "raft_applied_index" ∷ [])
  some (record part {
    version = str_of (get_or (text []) (lit "version") fs);
    leader_id = id_text leader;
    member_id = id_text member;
    is_leader = not (is_empty (id_text member)) && text_eq (id_text member) (id_text leader);
    raft_index = raft_index;
    raft_term = raft_term;
    raft_applied_index = raft_applied;
  })

-- `_parse_etcd_status`
unfoldable pub parse_etcd_status : Json → Option EtcdStatus
unfolding sizes sized with_raft
parse_etcd_status data_ = do
  fs ← fields_of data_
  (db_size, db_in_use, quota) ← sizes data_
  with_raft data_ fs (sized db_size db_in_use quota)
