-- ===== src/Com/Address.antt =====
-- The addresses that com/utils.go and the proxies work with. Of Go's standard library: `net.IP` is a
-- slice of bytes, `To4` gives the four bytes of an IPv4 address or nil, `To16` the sixteen bytes
-- of an IPv4 or IPv6 address or nil. An `Addr` is a value of Go's interface `net.Addr`.
pub mod Forms
use deepin_network_proxy.Prelude.{
  ℕ, ◌+◌, ◌-◌, ◌*◌, ◌/◌, ◌%◌, ◌^◌, Bool, true, ◌&&◌, Option, none, some, [], ◌∷◌, ◌++◌, arith,
  nat_eq, if◌then◌else◌, length, take, drop, Bytes, nat_Eq, list_Eq, ◌==◌, bit_or,
}

pub data Addr : Type 0 where
  tcp_addr : Bytes → ℕ → Addr
  udp_addr : Bytes → ℕ → Addr
  -- tproxy/DomainAddr.go: the network, the domain and the port.
  domain_addr : Bytes → Bytes → ℕ → Addr

abbrev pub all_zero : Bytes → Bool
all_zero [] = true
all_zero (x ∷ xs) = nat_eq x 0 && all_zero xs

abbrev pub v4_prefix : Bytes
v4_prefix = 0 ∷ 0 ∷ 0 ∷ 0 ∷ 0 ∷ 0 ∷ 0 ∷ 0 ∷ 0 ∷ 0 ∷ 255 ∷ 255 ∷ []

-- `net.IP.To4`.
unfoldable pub to4 : Bytes → Option Bytes
to4 ip =
    if nat_eq (length ip) 4
    then some ip
    else if nat_eq (length ip) 16 && take 12 ip == v4_prefix
    then some (drop 12 ip)
    else none

-- `net.IP.To16`.
unfoldable pub to16 : Bytes → Option Bytes
to16 ip =
    if nat_eq (length ip) 4
    then some (v4_prefix ++ ip)
    else if nat_eq (length ip) 16
    then some ip
    else none

-- `net.IPv4(a, b, c, d)` is the sixteen byte form.
abbrev pub ipv4 : ℕ → ℕ → ℕ → ℕ → Bytes
ipv4 a b c d = v4_prefix ++ (a ∷ b ∷ c ∷ d ∷ [])

-- `binary.BigEndian.PutUint16(buf, uint16(port))`: the conversion wraps.
unfoldable pub put_uint16 : ℕ → Bytes
put_uint16 port = port / 256 % 256 ∷ port % 256 ∷ []

-- `binary.BigEndian.Uint16(b)` on two bytes.
unfoldable pub get_uint16 : ℕ → ℕ → ℕ
get_uint16 hi lo = bit_or lo (hi * 2 ^ 8 % 2 ^ 16)
