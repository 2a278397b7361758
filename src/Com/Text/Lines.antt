-- ===== src/Com/Text/Lines.antt =====
-- The first line with the prefix is the one that com/utils.go reads.
use deepin_network_proxy.Prelude.{
  ℕ, ◌≡◌, refl, ap, ◌∙◌, Bool, true, not, ◌&&◌, none, some, List, [], ◌∷◌, ◌++◌, arith, nat_eq,
  nat_eq_iff, nat_eq-false, split_on, split_on-append, split_on_without, IsWithout, Bytes, codes,
  nat_Eq, list_Eq,
}
use deepin_network_proxy.Prelude.{IsSplit, split, split_on-IsSplit}
use deepin_network_proxy.Com.Path.{join_path}
use deepin_network_proxy.Com.Text.{
  drop_return, ended_lines, read_lines, after_prefix, find_cgroup, parse_cgroup2_from_buf,
  second_field, find_ppid, parse_ppid_from_buf,
}

-- A line without a newline or carriage return.
abbrev pub IsLine : Bytes → Type 0
IsLine w = IsWithout 10 w × IsWithout 13 w

-- Lines, each ended with a newline, in front of a text.
abbrev pub above : List Bytes → Bytes → Bytes
above [] t = t
above (w ∷ ws) t = w ++ (10 ∷ above ws t)

-- Lines that do not start with the prefix.
abbrev pub AreOther : Bytes → List Bytes → Type 0
AreOther prefix [] = Unit {0}
AreOther prefix (w ∷ ws) = IsLine w × (after_prefix prefix w ≡ none) × AreOther prefix ws

abbrev pub lacks : ℕ → Bytes → Bool
lacks sep [] = true
lacks sep (c ∷ cs) = not (nat_eq c sep) && lacks sep cs

-- A text without the separator in front of another.
IsWithout-codes :
    (sep : ℕ) (w v : Bytes) → lacks sep w ≡ true → IsWithout sep v → IsWithout sep (w ++ v)
IsWithout-codes sep [] v e h = h
IsWithout-codes sep (c ∷ cs) v e h =
    (ground (arith, nat_eq_iff c sep), IsWithout-codes sep cs v (ground arith) h)

pub IsWithout-lacks : (sep : ℕ) (w : Bytes) → lacks sep w ≡ true → IsWithout sep w
IsWithout-lacks sep [] e = tt
IsWithout-lacks sep (c ∷ cs) e =
    (ground (arith, nat_eq_iff c sep), IsWithout-lacks sep cs (ground arith))

drop_return_without : (w : Bytes) → IsWithout 13 w → drop_return w ≡ w
unfolding drop_return
drop_return_without [] h = refl
drop_return_without (c ∷ []) h = rw (nat_eq-false c 13 h.0) refl
drop_return_without (c ∷ d ∷ cs) h = ap (◌∷◌ c) (drop_return_without (d ∷ cs) h.1)

ended_lines-cons :
    (w : Bytes) {ws : List Bytes}
    → IsSplit ws
    → ended_lines (w ∷ ws) ≡ drop_return w ∷ ended_lines ws
unfolding ended_lines
ended_lines-cons w (split v vs) = refl

read_lines-cons : (w t : Bytes) → IsLine w → read_lines (w ++ (10 ∷ t)) ≡ w ∷ read_lines t
unfolding read_lines
read_lines-cons w t h =
    ap ended_lines
      (split_on-append 10 w t ∙ ap (λ ws. ws ++ split_on 10 t) (split_on_without 10 w h.0))
    ∙ ended_lines-cons w (split_on-IsSplit 10 t)
    ∙ ap (λ v. v ∷ ended_lines (split_on 10 t)) (drop_return_without w h.1)

find_cgroup_first :
    (ws : List Bytes) (w path t : Bytes)
    → AreOther (codes "0::") ws
    → IsLine w
    → after_prefix (codes "0::") w ≡ some path
    → find_cgroup (read_lines (above ws (w ++ (10 ∷ t)))) ≡ some path
unfolding find_cgroup
find_cgroup_first [] w path t others h e = rw (read_lines-cons w t h) (rw e refl)
find_cgroup_first (v ∷ ws) w path t others h e =
    rw (read_lines-cons v (above ws (w ++ (10 ∷ t))) others.0)
      (rw others.1 (find_cgroup_first ws w path t others.2 h e))

find_ppid_first :
    (ws : List Bytes) (w rest t : Bytes)
    → AreOther (codes "PPid:") ws
    → IsLine w
    → after_prefix (codes "PPid:") w ≡ some rest
    → find_ppid (read_lines (above ws (w ++ (10 ∷ t)))) ≡ second_field (split_on 9 w)
unfolding find_ppid
find_ppid_first [] w rest t others h e = rw (read_lines-cons w t h) (rw e refl)
find_ppid_first (v ∷ ws) w rest t others h e =
    rw (read_lines-cons v (above ws (w ++ (10 ∷ t))) others.0)
      (rw others.1 (find_ppid_first ws w rest t others.2 h e))

-- `ParseCGroup2FromBuf` gives the path of the first line that starts with "0::", in the file system of
-- the cgroups, whatever lines stand before it and whatever text after it.
pub parse_cgroup2_from_buf_lem :
    (ws : List Bytes) (path t : Bytes)
    → AreOther (codes "0::") ws
    → IsLine path
    → parse_cgroup2_from_buf (above ws (codes "0::" ++ path ++ (10 ∷ t)))
      ≡ join_path (codes "/sys/fs/cgroup/unified" ∷ path ∷ codes "cgroup.procs" ∷ [])
unfolding parse_cgroup2_from_buf
parse_cgroup2_from_buf_lem ws path t others h =
    let known =
      find_cgroup_first ws (codes "0::" ++ path) path t others
        (
          IsWithout-codes 10 (codes "0::") path refl h.0,
          IsWithout-codes 13 (codes "0::") path refl h.1,
        )
        refl in
    rw (parse_cgroup2_from_buf, known) refl

-- `ParsePPidFromBuf` gives the number behind the tab in the first line that starts with "PPid:",
-- whatever lines stand before it and whatever text after it.
pub parse_ppid_from_buf_lem :
    (ws : List Bytes) (ppid t : Bytes)
    → AreOther (codes "PPid:") ws
    → IsLine ppid
    → IsWithout 9 ppid
    → parse_ppid_from_buf (above ws (codes "PPid:\t" ++ ppid ++ (10 ∷ t))) ≡ ppid
unfolding parse_ppid_from_buf split_on
parse_ppid_from_buf_lem ws ppid t others h tab =
    let line : IsLine (codes "PPid:\t" ++ ppid) = (
      IsWithout-codes 10 (codes "PPid:\t") ppid refl h.0,
      IsWithout-codes 13 (codes "PPid:\t") ppid refl h.1,
    ) in
    let fields : split_on 9 (codes "PPid:\t" ++ ppid) ≡ codes "PPid:" ∷ ppid ∷ [] =
      split_on-append 9 (codes "PPid:") ppid
      ∙ ap (λ ws. codes "PPid:" ∷ ws) (split_on_without 9 ppid tab) in
    find_ppid_first ws (codes "PPid:\t" ++ ppid) (9 ∷ ppid) t others line refl
    ∙ ap second_field fields
