-- ===== src/Com/Endian.antt =====
-- encoding/binary's LittleEndian, as com/utils.go and netlink/netlink.go read and write numbers.
use deepin_network_proxy.Prelude.{
  ℕ, zero, suc, ◌+◌, ◌*◌, ◌/◌, ◌%◌, ◌^◌, ◌<◌, ◌≡◌, refl, sym, ap, ◌∙◌, [], ◌∷◌, ◌++◌, arith, length,
  take, drop, take-append_length, drop-append_length, Bytes, nat_Eq, list_Eq,
}
use native.Mathlib.Nat.{pow-suc}

-- `binary.LittleEndian`, as a number and as so many bytes.
unfoldable pub from_le : Bytes → ℕ
from_le [] = 0
from_le (b ∷ bs) = b + 256 * from_le bs

unfoldable pub to_le : ℕ → ℕ → Bytes
to_le zero v = []
to_le (suc n) v = v % 256 ∷ to_le n (v / 256)

-- The number of `size` bytes at the index `at`.
unfoldable pub field : ℕ → ℕ → Bytes → ℕ
field at size bs = from_le (take size (drop at bs))

pub length-to_le : (n v : ℕ) → length (to_le n v) ≡ n
unfolding to_le
length-to_le zero v = refl
length-to_le (suc n) v = omega (arith, length-to_le n (v / 256))

pub from_le-to_le : (n v : ℕ) → v < 256 ^ n → from_le (to_le n v) ≡ v
unfolding from_le to_le
from_le-to_le zero v h = omega arith
from_le-to_le (suc n) v h =
    let e = from_le-to_le n (v / 256) (omega (arith, pow-suc 256 n)) in omega (arith, e)

-- What stands in front, by its length.
pub take_front : (n : ℕ) (a b : Bytes) → length a ≡ n → take n (a ++ b) ≡ a
take_front n a b e = rw (sym e) (take-append_length a b)

pub drop_front : (n : ℕ) (a b : Bytes) → length a ≡ n → drop n (a ++ b) ≡ b
drop_front n a b e = rw (sym e) (drop-append_length a b)

-- A number that stands behind so many bytes.
pub field_at :
    (at size v : ℕ) (a b : Bytes)
    → length a ≡ at
    → v < 256 ^ size
    → field at size (a ++ (to_le size v ++ b)) ≡ v
unfolding field
field_at at size v a b e h =
    ap (λ bs. from_le (take size bs)) (drop_front at a (to_le size v ++ b) e)
    ∙ ap from_le (take_front size (to_le size v) b (length-to_le size v))
    ∙ from_le-to_le size v h
