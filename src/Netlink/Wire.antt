-- ===== src/Netlink/Wire.antt =====
-- netlink/define.go, the layouts of netlink/netlink.go, and Go's syscall.ParseNetlinkMessage: numbers
-- of several bytes have the low byte first.
use deepin_network_proxy.Com.Endian.{to_le, field}
use deepin_network_proxy.Prelude.{
  ℕ, zero, suc, ◌+◌, ◌-◌, ◌*◌, ◌/◌, ◌||◌, Option, none, some, List, [], ◌∷◌, ◌++◌, ltb,
  if◌then◌else◌, length, take, drop, Bytes, nat_Eq, list_Eq,
}

pub record NlMsghdr : Type 0 where
  pub len : ℕ
  pub typ : ℕ
  pub flags : ℕ
  pub seq : ℕ
  pub pid : ℕ

pub record NetlinkMessage : Type 0 where
  pub header : NlMsghdr
  pub payload : Bytes

-- `nlmAlignOf`.
abbrev pub nlm_align_of : ℕ → ℕ
nlm_align_of n = (n + 3) / 4 * 4

-- The message at the front, and what stands behind it.
unfoldable pub first_message : Bytes → Option (NetlinkMessage × Bytes)
first_message b =
    let len = field 0 4 b in
    let header : NlMsghdr = record {
      len = len;
      typ = field 4 2 b;
      flags = field 6 2 b;
      seq = field 8 4 b;
      pid = field 12 4 b;
    } in
    if ltb len 16 || ltb (length b) (nlm_align_of len)
    then none
    else some (
      record { header = header; payload = take (len - 16) (drop 16 b) },
      drop (nlm_align_of len) b,
    )

-- The loop of `ParseNetlinkMessage`. Each message has sixteen bytes at least, so that as much fuel as
-- there are bytes is enough.
unfoldable pub messages : ℕ → Bytes → Option (List NetlinkMessage)
messages zero b = some []
messages (suc fuel) b = if ltb (length b) 16 then some [] else elim (first_message b) [
  | none ↦ none
  | some (m, rest) ↦ elim (messages fuel rest) [ none ↦ none | some ms ↦ some (m ∷ ms) ]
]

unfoldable pub parse_netlink_message : Bytes → Option (List NetlinkMessage)
parse_netlink_message b = messages (length b) b

pub record CbId : Type 0 where
  pub idx : ℕ
  pub val : ℕ

pub record CnMsg : Type 0 where
  pub id : CbId
  pub seq : ℕ
  pub ack : ℕ
  pub len : ℕ
  pub flag : ℕ

pub record ProcEventHeader : Type 0 where
  pub what : ℕ
  pub cpu : ℕ
  pub timestamp : ℕ

pub record ExecProcEvent : Type 0 where
  pub proc_pid : ℕ
  pub proc_tgid : ℕ

pub record ExitProcEvent : Type 0 where
  pub process_pid : ℕ
  pub process_tgid : ℕ
  pub exit_code : ℕ
  pub exit_signal : ℕ

-- `binary.Read`: an error where fewer bytes are left than the layout has.
abbrev pub binary_read {ℓ} : {A : Type ℓ} → ℕ → (Bytes → A) → Bytes → Option (A × Bytes)
binary_read size layout b =
    if ltb (length b) size then none else some (layout (take size b), drop size b)

unfoldable pub cn_msg_of : Bytes → CnMsg
cn_msg_of b = record {
  id = record { idx = field 0 4 b; val = field 4 4 b };
  seq = field 8 4 b;
  ack = field 12 4 b;
  len = field 16 2 b;
  flag = field 18 2 b;
}

unfoldable pub header_of : Bytes → ProcEventHeader
header_of b = record { what = field 0 4 b; cpu = field 4 4 b; timestamp = field 8 8 b }

unfoldable pub exec_of : Bytes → ExecProcEvent
exec_of b = record { proc_pid = field 0 4 b; proc_tgid = field 4 4 b }

unfoldable pub exit_of : Bytes → ExitProcEvent
exit_of b = record {
  process_pid = field 0 4 b;
  process_tgid = field 4 4 b;
  exit_code = field 8 4 b;
  exit_signal = field 12 4 b;
}

unfoldable pub read_cn_msg : Bytes → Option (CnMsg × Bytes)
read_cn_msg b = binary_read 20 cn_msg_of b

unfoldable pub read_header : Bytes → Option (ProcEventHeader × Bytes)
read_header b = binary_read 16 header_of b

unfoldable pub read_exec : Bytes → Option (ExecProcEvent × Bytes)
read_exec b = binary_read 8 exec_of b

unfoldable pub read_exit : Bytes → Option (ExitProcEvent × Bytes)
read_exit b = binary_read 16 exit_of b

-- The bytes that `sendMsg` writes: the two headers, and the operation.
unfoldable pub send_msg : CbId → ℕ → ℕ → Bytes
send_msg id pid proto =
    let cn_msg =
      to_le 4 id.idx ++ to_le 4 id.val ++ to_le 4 1 ++ to_le 4 0 ++ to_le 2 4 ++ to_le 2 0 in
    let nl_msg = to_le 4 (16 + (20 + 4)) ++ to_le 2 3 ++ to_le 2 0 ++ to_le 4 1 ++ to_le 4 pid in
    nl_msg ++ cn_msg ++ to_le 4 proto
