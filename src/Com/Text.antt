-- ===== src/Com/Text.antt =====
-- The texts of /proc that com/utils.go reads, line by line.
pub mod Lines
use deepin_network_proxy.Com.Path.{join_path}
use deepin_network_proxy.Prelude.{
  ◌/◌, Option, none, some, List, [], ◌∷◌, nat_eq, if◌then◌else◌, drop, split_on, Bytes, codes, Eq,
  nat_Eq, list_Eq, ◌==◌,
}

-- A line that ended with a newline, without the carriage return in front of it.
unfoldable pub drop_return : Bytes → Bytes
drop_return [] = []
drop_return (c ∷ []) = if nat_eq c 13 then [] else c ∷ []
drop_return (c ∷ d ∷ cs) = c ∷ drop_return (d ∷ cs)

unfoldable pub ended_lines : List Bytes → List Bytes
ended_lines [] = []
ended_lines (last ∷ []) = if last == [] then [] else last ∷ []
ended_lines (line ∷ next ∷ rest) = drop_return line ∷ ended_lines (next ∷ rest)

-- The results of `bufio.Reader.ReadLine` up to its error at the end, for lines that fit its buffer of
-- 4096 bytes.
unfoldable pub read_lines : Bytes → List Bytes
read_lines text = ended_lines (split_on 10 text)

abbrev pub after_prefix : Bytes → Bytes → Option Bytes
after_prefix [] s = some s
after_prefix (c ∷ cs) [] = none
after_prefix (c ∷ cs) (d ∷ ds) = if nat_eq c d then after_prefix cs ds else none

-- The loop of `ParseCGroup2FromBuf`: the path behind the first "0::".
unfoldable pub find_cgroup : List Bytes → Option Bytes
find_cgroup [] = none
find_cgroup (line ∷ rest) =
    let later = find_cgroup rest in
    elim (after_prefix (codes "0::") line) [ none ↦ later | some path ↦ some path ]

-- `ParseCGroup2FromBuf`.
unfoldable pub parse_cgroup2_from_buf : Bytes → Bytes
parse_cgroup2_from_buf text = elim (find_cgroup (read_lines text)) [
  | none ↦ []
  | some path ↦ join_path (codes "/sys/fs/cgroup/unified" ∷ path ∷ codes "cgroup.procs" ∷ [])
]

-- The second field between tabs, if there is one.
abbrev pub second_field : List Bytes → Bytes
second_field (first ∷ second ∷ rest) = second
second_field _ = []

-- The loop of `ParsePPidFromBuf`.
unfoldable pub find_ppid : List Bytes → Bytes
find_ppid [] = []
find_ppid (line ∷ rest) =
    let later = find_ppid rest in
    elim (after_prefix (codes "PPid:") line) [
      | none ↦ later
      | some _ ↦ second_field (split_on 9 line)
    ]

-- `ParsePPidFromBuf`.
unfoldable pub parse_ppid_from_buf : Bytes → Bytes
parse_ppid_from_buf text = find_ppid (read_lines text)
