-- ===== src/Netlink.antt =====
-- netlink/: the service that keeps the running programs and tells of new and ended ones. The events
-- come from the kernel as messages of the connector; the numbers that the headers of the kernel give
-- to events and groups are parameters.
pub mod Wire
pub mod Replay
pub mod Fields
pub mod Events
pub mod Send
pub mod Startup
mod Tests
use deepin_network_proxy.Prelude.{
  ℕ, ◌+◌, ◌/◌, ap, not, ◌||◌, Option, none, some, List, [], ◌∷◌, ◌++◌, ltb, nat_eq, if◌then◌else◌,
  nat_eq_refl, length, take, Bytes, codes, Eq, nat_Eq, list_Eq, ◌==◌, GoMap, lookup, insert, delete,
  itoa, Result, ok, err,
}
use deepin_network_proxy.Com.Pid.{is_pid}
use deepin_network_proxy.Com.Path.{join_path}
use deepin_network_proxy.Com.Text.{parse_cgroup2_from_buf, parse_ppid_from_buf}
use deepin_network_proxy.Netlink.Wire.{
  NetlinkMessage, parse_netlink_message, read_cn_msg, read_header, read_exec, read_exit,
}

pub record ProcMessage : Type 0 where
  pub exec_path : Bytes
  pub cgroup2_path : Bytes
  pub pid : Bytes
  pub ppid : Bytes

-- A signal that is emitted; an error of `Emit` is logged only.
pub data Signal : Type 0 where
  exec_proc exit_proc : ProcMessage → Signal

-- `ProcManager`: the processes, and the signals emitted, the last one last.
pub record ProcManager : Type 0 where
  pub procs : GoMap Bytes ProcMessage
  pub signals : List Signal

-- `NewProcManager`.
unfoldable pub new_proc_manager : ProcManager
new_proc_manager = record { procs = []; signals = [] }

-- The files under /proc at one moment: empty texts where the code passes over an error.
pub record Files : Type 0 where
  pub read_link : Bytes → Bytes
  pub read_file : Bytes → Bytes

abbrev pub proc_file : Bytes → Bytes → Bytes
proc_file pid name = join_path (codes "/proc" ∷ pid ∷ name ∷ [])

-- `getProcMsg`.
unfoldable pub get_proc_msg : Files → Bytes → Option ProcMessage
get_proc_msg fs pid =
    let exec_path = fs.read_link (proc_file pid (codes "exe")) in
    if not (is_pid pid) || exec_path == []
    then none
    else some (record {
      exec_path = exec_path;
      cgroup2_path = parse_cgroup2_from_buf (fs.read_file (proc_file pid (codes "cgroup")));
      pid = pid;
      ppid = parse_ppid_from_buf (fs.read_file (proc_file pid (codes "status")));
    })

-- A signal is emitted behind the lock, so that another goroutine may come between.
abbrev pub emit : Option Signal → ProcManager → ProcManager
emit none p = p
emit (some sig) p = record p { signals = p.signals ++ sig ∷ [] }

-- What `addProc` does under the lock.
abbrev pub store_proc : Bytes → ProcMessage → ProcManager → ProcManager
store_proc pid msg p = record p { procs = insert pid msg p.procs }

-- `addProc`, where no other goroutine comes between.
unfoldable pub add_proc : Bytes → ProcMessage → ProcManager → ProcManager
add_proc pid msg p = emit (some (exec_proc msg)) (store_proc pid msg p)

-- What `delProc` does under the lock, and the signal that it is to emit then.
abbrev pub remove_proc : Bytes → ProcManager → ProcManager
remove_proc pid p = record p { procs = delete pid p.procs }

abbrev pub exit_signal : Option ProcMessage → Option Signal
exit_signal none = none
exit_signal (some msg) = some (exit_proc msg)

-- `delProc`, where no other goroutine comes between.
unfoldable pub del_proc : Bytes → ProcManager → ProcManager
del_proc pid p = emit (exit_signal (lookup pid p.procs)) (remove_proc pid p)

-- One process that `getProcMsg` is asked for.
unfoldable pub add_found : Files → Bytes → ProcManager → ProcManager
add_found fs pid p = elim (get_proc_msg fs pid) [ none ↦ p | some msg ↦ add_proc pid msg p ]

-- What is read later: the files of each later moment.
abbrev pub later : (ℕ → Files) → ℕ → Files
later fs i = fs (i + 1)

-- The loop of `loadProc` over the names in /proc.
unfoldable pub load_proc : (ℕ → Files) → List Bytes → ProcManager → ProcManager
load_proc fs [] p = p
load_proc fs (name ∷ names) p = load_proc (later fs) names (add_found (fs 0) name p)

-- PROC_EVENT_EXEC and PROC_EVENT_EXIT of the kernel's headers.
pub record Headers : Type 0 where
  pub exec_event : ℕ
  pub exit_event : ℕ

pub data ListenError : Type 0 where
  recv_failed hdr_missing bad_message : ListenError

module _ (H : Headers) where
  -- The part of `listen` behind the headers of a message: an exec or exit of a whole process counts,
  -- that of a thread does not.
  unfoldable pub on_event : Files → ℕ → Bytes → ProcManager → ProcManager
  on_event fs what rest p =
      if nat_eq what H.exec_event
      then elim (read_exec rest) [
        | none ↦ p
        | some (e, _) ↦
            if nat_eq e.proc_pid e.proc_tgid then add_found fs (itoa e.proc_pid) p else p
      ]
      else if nat_eq what H.exit_event
      then elim (read_exit rest) [
        | none ↦ p
        | some (e, _) ↦
            if nat_eq e.process_pid e.process_tgid then del_proc (itoa e.process_pid) p else p
      ]
      else p

  -- One message.
  unfoldable pub on_message : Files → Bytes → ProcManager → ProcManager
  on_message fs data_bytes p = elim (read_cn_msg data_bytes) [
    | none ↦ p
    | some (msg, body) ↦ elim (read_header body) [
      | none ↦ p
      | some (header, rest) ↦ on_event fs header.what rest p
    ]
  ]

  -- The loop of `listen`.
  unfoldable pub on_messages : (ℕ → Files) → List NetlinkMessage → ProcManager → ProcManager
  on_messages fs [] p = p
  on_messages fs (m ∷ ms) p = on_messages (later fs) ms (on_message (fs 0) m.payload p)

  -- `listen`: `got` is the datagram, unless the receiving fails. The buffer has 1024 bytes.
  unfoldable pub listen :
      (ℕ → Files) → Option Bytes → ProcManager → Result ListenError (Unit {0}) × ProcManager
  listen fs none p = (err recv_failed, p)
  listen fs (some got) p =
      let buf = take 1024 got in
      if ltb (length buf) 16 then (err hdr_missing, p) else elim (parse_netlink_message buf) [
        | none ↦ (err bad_message, p)
        | some ms ↦ (ok tt, on_messages fs ms p)
      ]
