-- ===== src/Com/Address/Forms.antt =====
-- The forms of an address, and the bytes of a port.
use deepin_network_proxy.Com.Address.{to16, v4_prefix, get_uint16}
use deepin_network_proxy.Prelude.{
  bit_or_comm, ℕ, ◌+◌, ◌*◌, ◌/◌, ◌%◌, ◌^◌, ◌<◌, ◌≡◌, ap, ◌∙◌, some, [], ◌∷◌, arith, length,
  length-append, Bytes, nat_Eq, list_Eq, bit_or, bit_or_beside,
}

-- Four bytes.
pub data IsIp4 : Bytes → Type 0 where
  ip4 : (a b c d : ℕ) → a < 256 → b < 256 → c < 256 → d < 256 → IsIp4 (a ∷ b ∷ c ∷ d ∷ [])

pub length-to16 : (ip : Bytes) {out : Bytes} → to16 ip ≡ some out → length out ≡ 16
unfolding to16
length-to16 ip h = ground (arith, length-append v4_prefix ip)

pub get_uint16_lem : (hi lo : ℕ) → hi < 256 → lo < 256 → get_uint16 hi lo ≡ hi * 256 + lo
unfolding get_uint16
get_uint16_lem hi lo h k =
    bit_or_comm lo (hi * 2 ^ 8 % 2 ^ 16)
    ∙ ap (λ (t : ℕ). bit_or t lo) (let e : hi * 2 ^ 8 % 2 ^ 16 ≡ hi * 2 ^ 8 = omega arith in e)
    ∙ bit_or_beside 8 hi lo k

pub get-put_uint16 : (port : ℕ) → get_uint16 (port / 256 % 256) (port % 256) ≡ port % 2 ^ 16
get-put_uint16 port = omega (arith, get_uint16_lem (port / 256 % 256) (port % 256))
