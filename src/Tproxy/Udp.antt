-- ===== src/Tproxy/Udp.antt =====
-- tproxy/UdpSock5Handler.go, `Read` and `Write`: the datagrams of a tunnel, in the relay's packages.
pub mod Delivery
pub mod Life
use deepin_network_proxy.Com.Address.{Addr, tcp_addr, udp_addr, domain_addr}
use deepin_network_proxy.Com.Package.{DataPackage, marshal_package, unmarshal_package}
use deepin_network_proxy.Prelude.{
  ℕ, zero, suc, ◌+◌, ◌-◌, Option, none, some, [], ◌∷◌, ◌++◌, arith, length, take, drop, Bytes,
  codes, nat_Eq, list_Eq,
}

abbrev pub zeros : ℕ → Bytes
zeros zero = []
zeros (suc n) = 0 ∷ zeros n

-- `copy(buf, src)`.
abbrev pub copy_into : Bytes → Bytes → Bytes
copy_into buf src = take (length buf) src ++ drop (length src) buf

-- `Read` of a datagram: the count that it returns, and the buffer. The relay's socket drops what
-- does not fit its 512 bytes.
unfoldable pub udp_read : Bytes → Bytes → Option (ℕ × Bytes)
udp_read datagram buf =
    let got = take 512 datagram in
    elim (unmarshal_package (got ++ zeros (512 - length got))) [
      | none ↦ none
      | some pkg ↦ some (length got, copy_into buf pkg.payload)
    ]

-- The package of an address: an address by domain has no field IP, which is a panic.
unfoldable pub package_to : Addr → Bytes → Option DataPackage
package_to (tcp_addr ip port) buf = some (record { ip = ip; port = port; payload = buf })
package_to (udp_addr ip port) buf = some (record { ip = ip; port = port; payload = buf })
package_to (domain_addr network domain port) buf = none

-- `Write`: the datagram that it sends, and the count that it returns.
unfoldable pub udp_write : Addr → Bytes → Option (Bytes × ℕ)
udp_write r_addr buf = elim (package_to r_addr buf) [
  | none ↦ none
  | some pkg ↦ some (marshal_package pkg (codes "udp"), length buf)
]
