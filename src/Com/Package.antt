-- ===== src/Com/Package.antt =====
-- `MarshalPackage` and `UnMarshalPackage` of com/utils.go: a datagram for a SOCKS5 server's UDP relay.
-- The address comes as its IP and its port, which the code takes out of it by reflection.
pub mod RoundTrip
use deepin_network_proxy.Com.Address.{to4, to16, put_uint16, get_uint16}
use deepin_network_proxy.Prelude.{
  ℕ, ◌+◌, Option, none, some, [], ◌∷◌, ◌++◌, arith, if◌then◌else◌, Bytes, codes, nat_Eq, list_Eq,
  ◌==◌,
}

pub record DataPackage : Type 0 where
  pub ip : Bytes
  pub port : ℕ
  pub payload : Bytes

-- ATYP and the address: both forms of an IP get ATYP 1.
unfoldable pub marshal_address : Bytes → Bytes
marshal_address ip = elim (to4 ip) [
  | some four ↦ 1 ∷ four
  | none ↦ elim (to16 ip) [ some long ↦ 1 ∷ long | none ↦ 3 ∷ ip ]
]

-- `MarshalPackage`: a protocol other than "udp" gives nil.
unfoldable pub marshal_package : DataPackage → Bytes → Bytes
marshal_package pkg proto =
    if proto == codes "udp"
    then 0 ∷ 0 ∷ 0 ∷ (marshal_address pkg.ip ++ (put_uint16 pkg.port ++ pkg.payload))
    else []

-- `UnMarshalPackage`: a message of less than ten bytes is a panic, `none`.
unfoldable pub unmarshal_package : Bytes → Option DataPackage
unmarshal_package (_ ∷ _ ∷ _ ∷ _ ∷ a ∷ b ∷ c ∷ d ∷ hi ∷ lo ∷ payload) =
    some (record { ip = a ∷ b ∷ c ∷ d ∷ []; port = get_uint16 hi lo; payload = payload })
unmarshal_package _ = none
