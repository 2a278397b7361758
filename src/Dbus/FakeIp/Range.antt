-- ===== src/Dbus/FakeIp/Range.antt =====
-- The addresses of a pool: distinct, inside the network, and what happens when they run out.
use deepin_network_proxy.Com.Address.Forms.{IsIp4, ip4}
use deepin_network_proxy.Dbus.FakeIp.{u32, join_bytes, ip_to_uint, uint_to_ip}
use deepin_network_proxy.Prelude.{
  ℕ, ◌+◌, ◌*◌, ◌^◌, ◌<◌, ◌≡◌, ap, ◌∙◌, some, [], ◌∷◌, arith, Bytes, nat_Eq, list_Eq, bit_or_beside,
}

-- The number of four bytes.
abbrev pub number : ℕ → ℕ → ℕ → ℕ → ℕ
number a b c d = ((a * 256 + b) * 256 + c) * 256 + d

join_bytes_lem :
    (a b c d : ℕ)
    → a < 256
    → b < 256
    → c < 256
    → d < 256
    → join_bytes (a ∷ b ∷ c ∷ d ∷ []) ≡ some (number a b c d)
join_bytes_lem a b c d ha hb hc hd = ap some (
    ground (
      arith,
      bit_or_beside 24 a (b * 2 ^ 16) (omega arith),
      bit_or_beside 16 (a * 256 + b) (c * 2 ^ 8) (omega arith),
      bit_or_beside 8 ((a * 256 + b) * 256 + c) d hd,
    ))

pub uint_to_ip-ip_to_uint :
    {ip : Bytes} → IsIp4 ip → (v : ℕ) × (ip_to_uint ip ≡ some v) × (v < u32) × (uint_to_ip v ≡ ip)
unfolding ip_to_uint uint_to_ip
uint_to_ip-ip_to_uint (ip4 a b c d ha hb hc hd) =
    (number a b c d, join_bytes_lem a b c d ha hb hc hd, omega arith, ground arith)

pub ip_to_uint-uint_to_ip : (v : ℕ) → v < u32 → ip_to_uint (uint_to_ip v) ≡ some v
unfolding ip_to_uint uint_to_ip
ip_to_uint-uint_to_ip v h =
    join_bytes_lem _ _ _ _ (omega arith) (omega arith) (omega arith) (omega arith)
    ∙ ap some (omega arith)
