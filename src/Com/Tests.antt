-- ===== src/Com/Tests.antt =====
-- The slice functions of com/utils.go on concrete slices.
use deepin_network_proxy.Com.Path.{join_path, enter, path_to, slashed}
use deepin_network_proxy.Com.Slices.{Slice}
use deepin_network_proxy.Prelude.{
  split_on, Bytes, refl, codes, ℕ, ◌≡◌, List, [], ◌∷◌, nat_Eq, list_Eq,
}

abbrev no_spare : ℕ → List ℕ
no_spare n = []

abbrev three : Slice ℕ
three = record { array = 1 ∷ 2 ∷ 3 ∷ []; len = 3 }

-- 2001:db8::1.
abbrev long : Bytes
long = 32 ∷ 1 ∷ 13 ∷ 184 ∷ 0 ∷ 0 ∷ 0 ∷ 0 ∷ 0 ∷ 0 ∷ 0 ∷ 0 ∷ 0 ∷ 0 ∷ 0 ∷ 1 ∷ []

joined :
    join_path
      (codes "/sys/fs/cgroup/unified" ∷ codes "/user.slice/./a/../b" ∷ codes "cgroup.procs" ∷ [])
    ≡ codes "/sys/fs/cgroup/unified/user.slice/b/cgroup.procs"
unfolding join_path enter path_to slashed split_on
joined = refl
