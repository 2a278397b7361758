-- ===== src/Com/Socket/Control.antt =====
-- ParseRemoteAddrFromMsgHdr of com/utils.go, with Go's syscall.ParseSocketControlMessage on Linux with
-- 64 bits.
use deepin_network_proxy.Prelude.{
  ltb-false, ℕ, zero, suc, ◌+◌, ◌-◌, ◌*◌, ◌/◌, ◌^◌, ◌<◌, ◌≤◌, ◌≡◌, refl, ap, ap₂, ◌∙◌, ◌&&◌, ◌||◌,
  Option, none, some, List, [], ◌∷◌, ◌++◌, arith, ltb, nat_eq, if◌then◌else◌, length, take, drop,
  Bytes, nat_Eq, list_Eq, Result, ok, err,
}
use deepin_network_proxy.Com.Address.{get_uint16, put_uint16}
use deepin_network_proxy.Com.Address.Forms.{get-put_uint16}
use deepin_network_proxy.Com.Endian.{from_le, to_le, field}
use deepin_network_proxy.Com.Socket.{SocketError, buf_nil, bad_message, type_missing}

pub record ControlMessage : Type 0 where
  pub level : ℕ
  pub typ : ℕ
  pub payload : Bytes

-- `cmsgAlignOf`.
abbrev cmsg_align_of : ℕ → ℕ
cmsg_align_of n = (n + 7) / 8 * 8

-- The loop of `ParseSocketControlMessage`. Each message has sixteen bytes at least, so that as much
-- fuel as there are bytes is enough.
unfoldable pub control_messages : ℕ → Bytes → Option (List ControlMessage)
control_messages zero b = some []
control_messages (suc fuel) b =
    let len = field 0 8 b in
    let rest = control_messages fuel (drop (cmsg_align_of len) b) in
    if ltb (length b) 16
    then some []
    else if ltb len 16 || ltb (length b) len
    then none
    else elim rest [
      | none ↦ none
      | some ms ↦ some (
          record { level = field 8 4 b; typ = field 12 4 b; payload = take (len - 16) (drop 16 b) }
          ∷ ms)
    ]

pub record BaseAddr : Type 0 where
  pub ip : Bytes
  pub port : ℕ

-- `syscall.SOL_IP`, `syscall.SOL_IPV6` and `syscall.IP_RECVORIGDSTADDR`.
abbrev sol_ip : ℕ
sol_ip = 0

abbrev pub sol_ipv6 : ℕ
sol_ipv6 = 41

abbrev ip_recv_orig_dst_addr : ℕ
ip_recv_orig_dst_addr = 20

-- The address in a message, from one byte to another.
abbrev addr_in : ℕ → ℕ → Bytes → BaseAddr
addr_in first last b = record {
  ip = take (last - first) (drop first b);
  port = get_uint16 (field 2 1 b) (field 3 1 b);
}

-- The loop of `ParseRemoteAddrFromMsgHdr`: the last address counts. `none` is a message that is shorter
-- than its address, where the code reads behind it or panics.
unfoldable pub last_addr : List ControlMessage → Option BaseAddr → Option (Option BaseAddr)
last_addr [] addr = some addr
last_addr (m ∷ ms) addr =
    let v4 = last_addr ms (some (addr_in 4 8 m.payload)) in
    let v6 = last_addr ms (some (addr_in 8 24 m.payload)) in
    let other = last_addr ms addr in
    if nat_eq m.level sol_ip && nat_eq m.typ ip_recv_orig_dst_addr
    then (if ltb (length m.payload) 8 then none else v4)
    else if nat_eq m.level sol_ipv6 && nat_eq m.typ ip_recv_orig_dst_addr
    then (if ltb (length m.payload) 24 then none else v6)
    else other

-- `ParseRemoteAddrFromMsgHdr`.
unfoldable pub parse_remote_addr_from_msg_hdr : Option Bytes → Option (Result SocketError BaseAddr)
parse_remote_addr_from_msg_hdr none = some (err buf_nil)
parse_remote_addr_from_msg_hdr (some buf) = elim (control_messages (length buf) buf) [
  | none ↦ some (err bad_message)
  | some ms ↦ elim (last_addr ms none) [
    | none ↦ none
    | some none ↦ some (err type_missing)
    | some (some addr) ↦ some (ok addr)
  ]
]

-- The kernel's message about the address that an IPv4 packet was sent to: a `sockaddr_in`.
abbrev pub orig_dst : ℕ → Bytes → ℕ → Bytes → Bytes
orig_dst family ip port pad =
    to_le 8 (16 + 16)
    ++ (to_le 4 sol_ip
        ++ (to_le 4 ip_recv_orig_dst_addr ++ (to_le 2 family ++ (put_uint16 port ++ (ip ++ pad)))))

-- `ParseRemoteAddrFromMsgHdr` gives the address and the port of the kernel's message.
pub parse_remote_addr_from_msg_hdr-orig_dst :
    (a b c d e f g h i j k l family port : ℕ)
    → port < 2 ^ 16
    → parse_remote_addr_from_msg_hdr
        (some (orig_dst family (a ∷ b ∷ c ∷ d ∷ []) port (e ∷ f ∷ g ∷ h ∷ i ∷ j ∷ k ∷ l ∷ [])))
      ≡ some (ok (record { ip = a ∷ b ∷ c ∷ d ∷ []; port = port }))
unfolding parse_remote_addr_from_msg_hdr control_messages last_addr to_le field from_le put_uint16
parse_remote_addr_from_msg_hdr-orig_dst a b c d e f g h i j k l family port small =
    ap (λ (n : ℕ). some (ok (record { ip = a ∷ b ∷ c ∷ d ∷ []; port = n })))
      (ap₂ get_uint16 (omega arith) (omega arith) ∙ (get-put_uint16 port ∙ omega arith))

-- The kernel's message about the address that an IPv6 packet was sent to, a `sockaddr_in6` under the
-- type IPV6_RECVORIGDSTADDR, which is 74.
abbrev pub orig_dst6 : Bytes → Bytes
orig_dst6 addr = to_le 8 (16 + 28) ++ (to_le 4 sol_ipv6 ++ (to_le 4 74 ++ addr))

drop_all : (n : ℕ) (xs : Bytes) → length xs ≤ n → drop n xs ≡ []
drop_all zero [] h = refl
drop_all zero (x ∷ xs) h = absurd (omega arith)
drop_all (suc n) [] h = refl
drop_all (suc n) (x ∷ xs) h = drop_all n xs (omega arith)

-- A buffer that holds one message, to its end.
control_messages_one :
    (fuel : ℕ) (b : Bytes)
    → 16 ≤ length b
    → field 0 8 b ≡ length b
    → control_messages (suc (suc fuel)) b
      ≡ some (
          record {
            level = field 8 4 b;
            typ = field 12 4 b;
            payload = take (length b - 16) (drop 16 b);
          }
          ∷ [])
unfolding control_messages
control_messages_one fuel b big len =
    let gone : drop (cmsg_align_of (length b)) b ≡ [] = drop_all _ b (omega arith) in
    rw (len, ltb-false (length b) 16 big, ltb-false (length b) (length b) (omega arith))
      (rw gone (rw len refl))

orig_dst6_fields :
    (addr : Bytes)
    → (field 0 8 (orig_dst6 addr) ≡ 44)
      × (field 8 4 (orig_dst6 addr) ≡ 41)
      × (field 12 4 (orig_dst6 addr) ≡ 74)
unfolding field from_le to_le
orig_dst6_fields addr = (refl, refl, refl)

-- `ParseRemoteAddrFromMsgHdr` finds no address in it.
pub parse_remote_addr_from_msg_hdr-orig_dst6 :
    (addr : Bytes)
    → length addr ≡ 28
    → parse_remote_addr_from_msg_hdr (some (orig_dst6 addr)) ≡ some (err type_missing)
unfolding parse_remote_addr_from_msg_hdr last_addr to_le
parse_remote_addr_from_msg_hdr-orig_dst6 addr long =
    let (len, level, typ) = orig_dst6_fields addr in
    let whole : field 0 8 (orig_dst6 addr) ≡ length (orig_dst6 addr) = len ∙ omega arith in
    rw
      (
        parse_remote_addr_from_msg_hdr,
        control_messages_one (length (drop 2 (orig_dst6 addr))) (orig_dst6 addr) (omega arith)
            whole,
      )
      (rw (level, typ) refl)
