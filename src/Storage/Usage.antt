-- ===== src/Storage/Usage.antt =====
-- How full the filesystems are, from the lines of `df`.
use node_debug_dashboard.Prelude.{
  ℕ, zero, suc, true, false, not, Option, none, some, List, [], ◌∷◌, ◌++◌, map, leb, ◌==◌,
  if◌then◌else◌, keep, is_empty, Text, lit, text_eq, strip, lstrip, span_word, is_digits,
  read_digits, Dict, str_eq, lookup, put, ◌>>=◌,
}
use node_debug_dashboard.Dmesg.Scan.{splitlines}
use node_debug_dashboard.Models.Warnings.{Severity, critical, warning, ok}
use node_debug_dashboard.Models.Storage.{DiskUsage}
use node_debug_dashboard.Storage.Mounts.{Mount, parse_mountinfo}

unfoldable pub reverse : {A : Type 0} → List A → List A
reverse [] = []
reverse (x ∷ xs) = reverse xs ++ x ∷ []

-- `s.split(None, n)`: after `n` words the rest is one part.
unfoldable pub split_words : ℕ → Text → List Text
unfolding lstrip span_word
split_words zero s = if is_empty (lstrip s) then [] else lstrip s ∷ []
split_words (suc n) s =
    let (w, rest) = span_word (lstrip s) in
    let parts = split_words n rest in if is_empty (lstrip s) then [] else w ∷ parts

-- `s.rsplit(None, n)`
unfoldable pub rsplit_words : ℕ → Text → List Text
unfolding reverse split_words
rsplit_words n s = reverse (map reverse (split_words n (reverse s)))

-- `{prefix + m[2]: m for m in mounts}`
unfoldable pub path_table : Text → List Mount → Dict Text Mount → Dict Text Mount
unfolding put
path_table prefix [] by_path = by_path
path_table prefix (m ∷ mounts) by_path =
    path_table prefix mounts (put (prefix ++ m.point) m by_path)

abbrev percent_digits : Text → Text
percent_digits pct = keep (λ c. not (c == b'%')) pct

unfoldable pub percent_of : Text → ℕ
unfolding is_digits read_digits
percent_of pct = if is_digits (percent_digits pct) then read_digits 0 (percent_digits pct) else 0

unfoldable pub usage_severity : ℕ → Severity
usage_severity pct_num = if leb 95 pct_num then critical else if leb 85 pct_num then warning else ok

unfoldable pub usage_of : Mount → Text → Text → Text → Text → DiskUsage
unfolding percent_of usage_severity
usage_of m size used avail pct = record {
  filesystem = m.source;
  mount = m.point;
  fs_type = m.fs_type;
  size = size;
  used = used;
  available = avail;
  used_percent = percent_of pct;
  severity = usage_severity (percent_of pct);
}

-- What the five parts of a line say, if it is of a path that was asked for.
unfoldable pub row_usage : Dict Text Mount → List Text → List DiskUsage
unfolding lookup usage_of lit text_eq
row_usage by_path (path ∷ size ∷ used ∷ avail ∷ pct ∷ []) = elim (lookup path by_path) [
  | none ↦ []
  | some m ↦ if text_eq size (lit "0") then [] else usage_of m size used avail pct ∷ []
]
row_usage by_path _ = []

unfoldable pub usages_of : Dict Text Mount → List Text → List DiskUsage
unfolding row_usage rsplit_words strip
usages_of by_path [] = []
usages_of by_path (line ∷ lines) =
    row_usage by_path (rsplit_words 4 (strip line)) ++ usages_of by_path lines

unfoldable pub df_command : Dict Text Mount → List Text
unfolding lit
df_command by_path =
    lit "df"
    ∷ lit "-h"
    ∷ lit "--output=file,size,used,avail,pcent"
    ∷ lit "--"
    ∷ map (λ (path, m). path) by_path

-- `_df`, with what a command prints.
unfoldable pub df : (List Text → Text) → Text → List Mount → List DiskUsage
unfolding path_table df_command usages_of splitlines
df run_command prefix mounts =
    let by_path = path_table prefix mounts [] in
    if is_empty mounts
    then []
    else usages_of by_path (splitlines (run_command (df_command by_path)))

-- `collect_disk_usage`, from the two mount tables: the host's, and the container's own where the
-- host's gives no row.
unfoldable pub collect_disk_usage :
    (List Text → Text) → Text → Text → Text → Option (List DiskUsage)
unfolding parse_mountinfo df lit
collect_disk_usage run_command host_proc host_info self_info = do
  mounts ← parse_mountinfo host_info
  elim (is_empty (df run_command (host_proc ++ lit "/1/root") mounts)) [
    | false ↦ some (df run_command (host_proc ++ lit "/1/root") mounts)
    | true ↦ do own ← parse_mountinfo self_info; some (df run_command [] own)
  ]
