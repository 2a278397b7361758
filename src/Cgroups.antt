-- ===== src/Cgroups.antt =====
-- new_cgroups/: which processes run in the cgroup of which scope. The shell command that moves a
-- process is outside: `echoes pid path` says whether it succeeds, and the log lists the moves done.
-- Go's slices are windows on shared arrays, as in Com.Slices, since `MegaDel` writes through them.
pub mod Controller
pub mod Manager
pub mod Deletes
mod Tests
use deepin_network_proxy.Define.{Scope, Priority, scope_string}
use deepin_network_proxy.Com.Slices.{Slice}
use deepin_network_proxy.Prelude.{
  ◌+◌, ◌/◌, ◌≡◌, refl, subst, ◌↔◌, Bool, true, ◌&&◌, List, ◌++◌, arith, Bytes, codes, Eq, nat_Eq,
  list_Eq, ◌==◌, list_eq_iff, ==_refl, GoMap,
}

-- `netlink.ProcMessage`.
pub record Proc : Type 0 where
  pub exec_path : Bytes
  pub cgroup_path : Bytes
  pub pid : Bytes
  pub ppid : Bytes

abbrev pub proc_eq : Proc → Proc → Bool
proc_eq p q =
    p.exec_path == q.exec_path
    && (p.cgroup_path == q.cgroup_path && (p.pid == q.pid && p.ppid == q.ppid))

proc_parts :
    (p q : Proc)
    → p.exec_path ≡ q.exec_path
    → p.cgroup_path ≡ q.cgroup_path
    → p.pid ≡ q.pid
    → p.ppid ≡ q.ppid
    → p ≡ q
proc_parts p q a b c d = λ i. record { exec_path = a i; cgroup_path = b i; pid = c i; ppid = d i }

pub proc_eq_iff : (p q : Proc) → (proc_eq p q ≡ true) ↔ (p ≡ q)
proc_eq_iff p q = (
  λ h. ground (
    arith,
    list_eq_iff p.exec_path q.exec_path,
    list_eq_iff p.cgroup_path q.cgroup_path,
    list_eq_iff p.pid q.pid,
    list_eq_iff p.ppid q.ppid,
    proc_parts p q,
  ),
  λ e.
      subst (λ r. proc_eq p r ≡ true) e
        (rw (==_refl p.exec_path, ==_refl p.cgroup_path, ==_refl p.pid, ==_refl p.ppid) refl),
)

-- `reflect.DeepEqual` on two of them.
instance abbrev pub proc_Eq : Eq Proc
proc_Eq = record { beq = proc_eq; beq_iff = proc_eq_iff }

-- `Controller`, without the pointer to its manager.
pub record Control : Type 0 where
  pub name : Scope
  pub priority : Priority
  pub ctl_path_sl : Slice Bytes
  pub ctl_proc_map : GoMap Bytes (Slice Proc)

-- The processes moved, in order: pid and cgroup file.
abbrev pub Log : Type 0
Log = List (Bytes × Bytes)

pub data CgroupError : Type 0 where
  not_a_pid echo_failed controller_exists dir_failed no_controller : CgroupError

-- `GetName`, `GetCGroupPath` and `GetControlPath`.
unfoldable pub get_name : Control → Bytes
get_name c = scope_string c.name ++ codes ".slice"

unfoldable pub get_cgroup_path : Control → Bytes
get_cgroup_path c = codes "/sys/fs/cgroup/unified/" ++ get_name c

unfoldable pub get_control_path : Control → Bytes
get_control_path c = get_cgroup_path c ++ codes "/cgroup.procs"
