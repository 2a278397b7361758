-- ===== src/Com/Package/RoundTrip.antt =====
-- What a package reads back as.
use deepin_network_proxy.Com.Address.{to4, to16, put_uint16, get_uint16}
use deepin_network_proxy.Com.Address.Forms.{IsIp4, ip4, get-put_uint16}
use deepin_network_proxy.Com.Package.{
  DataPackage, marshal_address, marshal_package, unmarshal_package,
}
use deepin_network_proxy.Prelude.{
  ℕ, ◌^◌, ◌<◌, ◌≡◌, refl, ap, ◌∙◌, none, some, [], ◌∷◌, ◌++◌, arith, Bytes, codes, nat_Eq, list_Eq,
}

-- A package to an address that has an IPv4 form reads back with that form, its port and its payload.
pub unmarshal_package-marshal_package :
    (pkg : DataPackage) {four : Bytes}
    → to4 pkg.ip ≡ some four
    → IsIp4 four
    → pkg.port < 2 ^ 16
    → unmarshal_package (marshal_package pkg (codes "udp"))
      ≡ some (record { ip = four; port = pkg.port; payload = pkg.payload })
unfolding marshal_package marshal_address unmarshal_package put_uint16
unmarshal_package-marshal_package pkg h (ip4 a b c d ha hb hc hd) small =
    rw (marshal_package, marshal_address, h)
      (ap (λ n. some (record { ip = a ∷ b ∷ c ∷ d ∷ []; port = n; payload = pkg.payload }))
        (get-put_uint16 pkg.port ∙ omega arith))

-- A package to an address that has only a sixteen byte form is not told from one to an IPv4 address:
-- it reads back with the first four bytes as its address, the next two as its port, and the other ten
-- and the port in front of what was sent.
pub unmarshal_package_long :
    (pkg : DataPackage) {a b c d e f : ℕ} {rest : Bytes}
    → to4 pkg.ip ≡ none
    → to16 pkg.ip ≡ some (a ∷ b ∷ c ∷ d ∷ e ∷ f ∷ rest)
    → unmarshal_package (marshal_package pkg (codes "udp"))
      ≡ some (record {
        ip = a ∷ b ∷ c ∷ d ∷ [];
        port = get_uint16 e f;
        payload = rest ++ (put_uint16 pkg.port ++ pkg.payload);
      })
unfolding marshal_package marshal_address unmarshal_package
unmarshal_package_long pkg h l = rw (marshal_package, marshal_address, h, l) refl
