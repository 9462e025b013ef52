-- ===== src/Storage/Mounts.antt =====
-- The mounted filesystems, as `parse_mountinfo` reads them from `/proc/<pid>/mountinfo`. A line whose
-- first part has five fields only raises an IndexError: the guard asks for five, and the options are
-- the sixth.
pub mod Shortest
use node_debug_dashboard.Prelude.{
  ℕ, zero, suc, ◌+◌, ◌-◌, ◌*◌, Bool, true, false, not, ◌&&◌, ◌||◌, Option, none, some, List, [],
  ◌∷◌, ◌++◌, leb, ltb, ◌==◌, if◌then◌else◌, any, all, map, length, Text, lit, text_eq, starts_with,
  words, split_on, Dict, str_eq, lookup, put, ◌>>=◌,
}
use node_debug_dashboard.Dmesg.Scan.{splitlines}

-- `_DF_SKIP_TYPES`
unfoldable pub df_skip_types : List Text
unfolding lit
df_skip_types =
    map (λ s. lit s)
      ("tmpfs" ∷ "devtmpfs" ∷ "ramfs" ∷ "squashfs" ∷ "iso9660" ∷ "udf" ∷ "erofs" ∷ "proc" ∷ "sysfs"
        ∷ "cgroup" ∷ "cgroup2" ∷ "devpts" ∷ "mqueue" ∷ "debugfs" ∷ "tracefs" ∷ "securityfs"
        ∷ "pstore" ∷ "bpf" ∷ "configfs" ∷ "fusectl" ∷ "hugetlbfs" ∷ "nsfs" ∷ "autofs" ∷ "rpc_pipefs"
        ∷ "binfmt_misc" ∷ "efivarfs" ∷ "selinuxfs" ∷ [])

abbrev is_octal : ℕ → Bool
is_octal c = leb b'0' c && leb c b'7'

-- The code point of `\ooo`, if it starts here.
abbrev octal_at : ℕ → Text → Option ℕ
octal_at c (d ∷ e ∷ f ∷ s) =
    if c == b'\\' && (is_octal d && (is_octal e && is_octal f))
    then some ((d - 48) * 64 + (e - 48) * 8 + (f - 48))
    else none
octal_at c _ = none

-- The first number counts the characters of an escape that are still to be passed over.
unfoldable pub unescape_from : ℕ → Text → Text
unescape_from n [] = []
unescape_from (suc n) (c ∷ s) = unescape_from n s
unescape_from zero (c ∷ s) = elim (octal_at c s) [
  | none ↦ c ∷ unescape_from 0 s
  | some code_point ↦ code_point ∷ unescape_from 3 s
]

-- `_unescape_mountinfo`
unfoldable pub unescape_mountinfo : Text → Text
unfolding unescape_from
unescape_mountinfo = unescape_from 0

abbrev drop_three : Text → Text
drop_three (a ∷ b ∷ c ∷ s) = s
drop_three _ = []

-- `line.partition(" - ")`: the part before, and the part after if there is a separator.
unfoldable pub partition_dash : Text → Text × Option Text
unfolding starts_with lit
partition_dash [] = ([], none)
partition_dash (c ∷ s) =
    if starts_with (lit " - ") (c ∷ s)
    then ([], some (drop_three (c ∷ s)))
    else (let (before, after) = partition_dash s in (c ∷ before, after))

pub record Mount : Type 0 where
  pub source : Text
  pub fs_type : Text
  pub point : Text

-- What a line says; its options may be missing.
pub record Entry : Type 0 where
  pub dev : Text
  pub mount : Mount
  pub options : Option Text

abbrev first_of : List Text → Option Text
first_of [] = none
first_of (w ∷ ws) = some w

unfoldable pub entry_from : List Text → List Text → Option Entry
unfolding unescape_mountinfo
entry_from (a ∷ b ∷ dev ∷ c ∷ point ∷ rest) (fs_type ∷ source ∷ more) = some (record {
  dev = dev;
  mount = record {
    source = unescape_mountinfo source;
    fs_type = fs_type;
    point = unescape_mountinfo point;
  };
  options = first_of rest;
})
entry_from _ _ = none

abbrev entry_around : Text × Option Text → Option Entry
entry_around (before, none) = none
entry_around (before, some after) = entry_from (words before) (words after)

unfoldable pub read_entry : Text → Option Entry
unfolding partition_dash words entry_from
read_entry line = entry_around (partition_dash line)

-- The dictionary of the loop, and `overlay_seen`.
pub record Seen : Type 0 where
  pub by_dev : Dict Text Mount
  pub overlay_seen : Bool

abbrev pub nothing_seen : Seen
nothing_seen = record { by_dev = []; overlay_seen = false }

abbrev pub is_skipped : Mount → Bool
is_skipped m = any (text_eq m.fs_type) df_skip_types

abbrev pub is_read_only : Text → Bool
is_read_only options = any (text_eq (lit "ro")) (split_on b',' options)

abbrev pub is_overlay : Mount → Bool
is_overlay m = text_eq m.fs_type (lit "overlay")

abbrev shorter : Mount → Option Mount → Bool
shorter m none = true
shorter m (some prev) = ltb (length m.point) (length prev.point)

-- The shortest mount point of a device stays.
unfoldable pub keep_shortest : Text → Mount → Dict Text Mount → Dict Text Mount
unfolding lookup put
keep_shortest dev m by_dev = if shorter m (lookup dev by_dev) then put dev m by_dev else by_dev

abbrev pub kept : Text → Mount → Seen → Seen
kept dev m seen = record seen { by_dev = keep_shortest dev m seen.by_dev }

-- A filesystem that can be filled; of the overlays, only the first one at "/".
unfoldable pub add_mount : Text → Mount → Seen → Seen
unfolding keep_shortest lit text_eq
add_mount dev m seen =
    if is_overlay m
    then (if seen.overlay_seen || not (text_eq m.point (lit "/"))
        then seen
        else record (kept dev m seen) { overlay_seen = true })
    else kept dev m seen

unfoldable pub add_entry : Entry → Seen → Option Seen
unfolding df_skip_types lit text_eq split_on add_mount
add_entry e seen = if is_skipped e.mount then some seen else elim e.options [
  | none ↦ none
  | some options ↦ some (if is_read_only options then seen else add_mount e.dev e.mount seen)
]

abbrev add_optional : Option Entry → Seen → Option Seen
add_optional none seen = some seen
add_optional (some e) seen = add_entry e seen

unfoldable pub add_lines : List Text → Seen → Option Seen
unfolding read_entry add_entry
add_lines [] seen = some seen
add_lines (line ∷ lines) seen = do next ← add_optional (read_entry line) seen; add_lines lines next

abbrev mounts_of : Dict Text Mount → List Mount
mounts_of = map (λ (dev, m). m)

-- The filesystems by device.
unfoldable pub mounts_by_dev : Text → Option (Dict Text Mount)
unfolding splitlines add_lines
mounts_by_dev info = do seen ← add_lines (splitlines info) nothing_seen; some seen.by_dev

-- `parse_mountinfo`
unfoldable pub parse_mountinfo : Text → Option (List Mount)
unfolding mounts_by_dev
parse_mountinfo info = do by_dev ← mounts_by_dev info; some (mounts_of by_dev)
