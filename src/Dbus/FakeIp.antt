-- ===== src/Dbus/FakeIp.antt =====
-- dbus/fakeip.go: the pool of made-up addresses that the DNS proxy hands out. A `uint32` is a number
-- below 2 ^ 32 with its wrap-around written out; `none` is Go's panic on an index out of range.
pub mod Range
pub mod Pool
use deepin_network_proxy.Com.Address.{to4}
use deepin_network_proxy.Prelude.{
  ℕ, zero, suc, ◌+◌, ◌-◌, ◌*◌, ◌/◌, ◌%◌, ◌^◌, Option, none, some, [], ◌∷◌, arith, Bytes, nat_Eq,
  list_Eq, bit_and, bit_or,
}

pub record FakeIp : Type 0 where
  pub start : ℕ
  pub end : ℕ
  pub index : ℕ

abbrev pub u32 : ℕ
u32 = 2 ^ 32

-- `(uint32(a) << 24) | (uint32(b) << 16) | (uint32(c) << 8) | uint32(d)`.
abbrev pub join_bytes : Bytes → Option ℕ
join_bytes (a ∷ b ∷ c ∷ d ∷ rest) =
    some (bit_or (bit_or (bit_or (a * 2 ^ 24 % u32) (b * 2 ^ 16 % u32)) (c * 2 ^ 8 % u32)) d)
join_bytes _ = none

-- `ipToUint`: `To4` gives nil where the address is no IPv4 address, and nil has no index 0.
unfoldable pub ip_to_uint : Bytes → Option ℕ
unfolding to4
ip_to_uint ip = elim (to4 ip) [ none ↦ none | some four ↦ join_bytes four ]

-- `uintToIP`.
unfoldable pub uint_to_ip : ℕ → Bytes
uint_to_ip v = v / 2 ^ 24 % 256 ∷ v / 2 ^ 16 % 256 ∷ v / 2 ^ 8 % 256 ∷ v % 256 ∷ []

-- `prefixToMask`: the shift count `32 - prefix` is a `uint32` too.
unfoldable pub prefix_to_mask : ℕ → ℕ
prefix_to_mask prefix = (u32 - 1) * 2 ^ ((32 + u32 - prefix) % u32) % u32

-- `^mask` on a `uint32`.
abbrev pub complement : ℕ → ℕ
complement mask = u32 - 1 - mask

-- `newFakeIP`.
unfoldable pub new_fake_ip : Bytes → ℕ → Option FakeIp
new_fake_ip ip prefix = elim (ip_to_uint ip) [
  | none ↦ none
  | some v ↦
      let mask = prefix_to_mask prefix in
      some (record { start = bit_and v mask; end = bit_or v (complement mask); index = 0 })
]

-- `new`: the test on `end` has an empty branch.
unfoldable pub new : FakeIp → Bytes × FakeIp
new i = (uint_to_ip ((i.start + i.index) % u32), record i { index = (i.index + 1) % u32 })

-- The `n`-th call of `new`, counted from 0.
unfoldable pub nth_new : ℕ → FakeIp → Bytes
unfolding new
nth_new zero i = (new i).0
nth_new (suc n) i = nth_new n (new i).1
