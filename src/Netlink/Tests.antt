-- ===== src/Netlink/Tests.antt =====
-- A browser that starts and ends, in the numbers of Linux.
use deepin_network_proxy.Com.Endian.{to_le}
use deepin_network_proxy.Prelude.{
  digits_upto, ℕ, zero, suc, ◌≡◌, refl, none, some, List, [], ◌∷◌, arith, length, split_on, Bytes,
  codes, nat_Eq, list_Eq, itoa,
}
use deepin_network_proxy.Com.Pid.{is_pid, match_pid}
use deepin_network_proxy.Com.Path.{join_path, enter, path_to, slashed}
use deepin_network_proxy.Com.Text.{
  parse_cgroup2_from_buf, find_cgroup, read_lines, ended_lines, drop_return, parse_ppid_from_buf,
  find_ppid,
}
use deepin_network_proxy.Netlink.{
  ProcMessage, ProcManager, new_proc_manager, Files, get_proc_msg, Headers,
}
use deepin_network_proxy.Netlink.Wire.{
  CbId, NetlinkMessage, parse_netlink_message, read_cn_msg, send_msg,
}
use deepin_network_proxy.Netlink.Replay.{
  replay, IsKeyed, Event, loads, listens, run, run-new_proc_manager,
}
use deepin_network_proxy.Netlink.Startup
use deepin_network_proxy.Netlink.Events.{datagram_of, of_process}
use deepin_network_proxy.Netlink.Send.{parse_netlink_message-send_msg}

abbrev linux : Headers
linux = record { exec_event = 2; exit_event = 2147483648 }

abbrev files : ℕ → Files
files i = record {
  read_link = λ path. codes "/usr/bin/browser";
  read_file = λ path. codes "0::/user.slice\nPPid:\t1\n";
}

abbrev browser : ProcMessage
browser = record {
  exec_path = codes "/usr/bin/browser";
  cgroup2_path = codes "/sys/fs/cgroup/unified/user.slice/cgroup.procs";
  pid = codes "41";
  ppid = codes "1";
}

abbrev zeros : ℕ → Bytes
zeros zero = []
zeros (suc n) = 0 ∷ zeros n

known : get_proc_msg (files 0) (itoa 41) ≡ some browser
unfolding get_proc_msg is_pid match_pid join_path enter path_to slashed parse_cgroup2_from_buf
    find_cgroup read_lines ended_lines drop_return parse_ppid_from_buf find_ppid split_on itoa
    digits_upto
known = refl

abbrev started : ProcManager
started = record { procs = (itoa 41, browser) ∷ []; signals = [] }

abbrev day : List Event
day =
    loads files (codes "41" ∷ codes "self" ∷ [])
    ∷ listens files
        (some (datagram_of (zeros 12) (zeros 20) 2 (zeros 12) (of_process 43 43 (zeros 16))))
    ∷ listens files none
    ∷ []

run-new_proc_manager_example :
    ((run linux day new_proc_manager).procs ≡ replay (run linux day new_proc_manager).signals [])
    × IsKeyed (run linux day new_proc_manager).procs
run-new_proc_manager_example = run-new_proc_manager linux day

abbrev proc_group : CbId
proc_group = record { idx = 1; val = 1 }

parse_netlink_message-send_msg_example :
    (m : NetlinkMessage) × (rest : Bytes) × (parse_netlink_message (send_msg proc_group 7 1)
      ≡ some (m ∷ []))
    × (m.header.len ≡ length (send_msg proc_group 7 1))
    × (read_cn_msg m.payload
        ≡ some (record { id = proc_group; seq = 1; ack = 0; len = length rest; flag = 0 }, rest))
    × (rest ≡ to_le 4 1)
parse_netlink_message-send_msg_example =
    parse_netlink_message-send_msg proc_group 7 1 (omega arith) (omega arith)
