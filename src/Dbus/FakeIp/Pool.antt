-- ===== src/Dbus/FakeIp/Pool.antt =====
-- The pool that `newFakeIP` makes, and the addresses that `new` takes from it in turn.
use deepin_network_proxy.Com.Address.Forms.{IsIp4}
use deepin_network_proxy.Dbus.FakeIp.{
  FakeIp, u32, ip_to_uint, uint_to_ip, prefix_to_mask, complement, new_fake_ip, new, nth_new,
}
use deepin_network_proxy.Dbus.FakeIp.Range.{uint_to_ip-ip_to_uint, ip_to_uint-uint_to_ip}
use deepin_network_proxy.Prelude.{
  some_inj, one_le_two_pow, ℕ, zero, suc, ◌+◌, ◌-◌, ◌*◌, ◌/◌, ◌%◌, ◌^◌, ◌≤◌, ◌<◌, ◌≡◌, ◌≢◌, refl,
  sym, ap, ◌∙◌, ◌↔◌, Bool, true, ◌&&◌, some, arith, nat_eq, Bytes, nat_Eq, list_Eq, bit_and, bit_or,
  bit_or_ones, bit_and_ones, bit_and_above,
}

-- The 33 prefixes, checked one by one.
mask_checks : ℕ → Bool
mask_checks p =
    nat_eq (prefix_to_mask p) ((2 ^ p - 1) * 2 ^ (32 - p))
    && (nat_eq (complement (prefix_to_mask p)) (2 ^ (32 - p) - 1)
        && nat_eq (2 ^ p * 2 ^ (32 - p)) u32)

checks_below : ℕ → Bool
checks_below zero = true
checks_below (suc n) = mask_checks n && checks_below n

checks_below_sound : (n p : ℕ) → checks_below n ≡ true → p < n → mask_checks p ≡ true
unfolding checks_below
checks_below_sound zero p h k = elim k [ ]
checks_below_sound (suc n) p h k = ground (arith, checks_below_sound n p)

mask_table : checks_below 33 ≡ true
unfolding checks_below mask_checks prefix_to_mask
mask_table = refl

mask_facts :
    (p : ℕ)
    → p ≤ 32
    → (prefix_to_mask p ≡ (2 ^ p - 1) * 2 ^ (32 - p))
      × (complement (prefix_to_mask p) ≡ 2 ^ (32 - p) - 1)
      × (2 ^ p * 2 ^ (32 - p) ≡ u32)
unfolding mask_checks
mask_facts p h = ground (arith, checks_below_sound 33 p mask_table (omega arith))

-- The network of an address: the pool starts at its first number and ends at its last.
pub record IsNetwork (i : FakeIp) (v size : ℕ) : Type 0 where
  pub fresh : i.index ≡ 0
  pub aligned : i.start ≡ v / size * size
  pub ends : i.end ≡ i.start + (size - 1)
  pub bounded : i.end < u32
  pub holds : (i.start ≤ v) × (v ≤ i.end)

network_bounds :
    (v p size : ℕ)
    → v < u32
    → p * size ≡ u32
    → 1 ≤ size
    → (v / size < p)
      × (v / size * size + (size - 1) < u32)
      × (v / size * size ≤ v)
      × (v ≤ v / size * size + (size - 1))
network_bounds v p size h e k = (grind arith, grind arith, grind arith, grind arith)

module _ (v p k : ℕ) (h : v < u32) (e : 2 ^ p * 2 ^ k ≡ u32) where
  split_at : v ≡ v / 2 ^ k * 2 ^ k + v % 2 ^ k
  split_at = omega (arith, one_le_two_pow k)

  low_fits : v % 2 ^ k < 2 ^ k
  low_fits = omega (arith, one_le_two_pow k)

  masked : bit_and v ((2 ^ p - 1) * 2 ^ k) ≡ v / 2 ^ k * 2 ^ k
  masked =
      ap (λ (t : ℕ). bit_and t ((2 ^ p - 1) * 2 ^ k)) split_at
      ∙ bit_and_above k (v / 2 ^ k) (v % 2 ^ k) (2 ^ p - 1) low_fits
      ∙ ap (λ (t : ℕ). t * 2 ^ k)
          (bit_and_ones p (v / 2 ^ k) (network_bounds v (2 ^ p) (2 ^ k) h e (one_le_two_pow k)).0)

  filled : bit_or v (2 ^ k - 1) ≡ v / 2 ^ k * 2 ^ k + (2 ^ k - 1)
  filled =
      ap (λ (t : ℕ). bit_or t (2 ^ k - 1)) split_at ∙ bit_or_ones k (v / 2 ^ k) (v % 2 ^ k) low_fits

-- `newFakeIP` of an IPv4 address and a prefix up to 32 gives the network of that address.
pub new_fake_ip-IsNetwork :
    {ip : Bytes} (prefix : ℕ)
    → IsIp4 ip
    → prefix ≤ 32
    → (i : FakeIp) × (v : ℕ) × (new_fake_ip ip prefix ≡ some i)
      × (ip_to_uint ip ≡ some v)
      × IsNetwork i v (2 ^ (32 - prefix))
unfolding new_fake_ip
new_fake_ip-IsNetwork {ip} prefix h k =
    let (v, read, small, _) = uint_to_ip-ip_to_uint h in
    let (mask, flipped, whole) = mask_facts prefix k in
    let size : ℕ = 2 ^ (32 - prefix) in
    let start_at = masked v prefix (32 - prefix) small whole in
    let end_at = filled v prefix (32 - prefix) small whole in
    let b = network_bounds v (2 ^ prefix) size small whole (one_le_two_pow (32 - prefix)) in
    (
      record { start = v / size * size; end = v / size * size + (size - 1); index = 0 },
      v,
      rw (read, new_fake_ip, flipped, mask, start_at, end_at) refl,
      read,
      record { fresh = refl; aligned = refl; ends = refl; bounded = b.1; holds = (b.2, b.3) },
    )

nth_new_lem :
    (n : ℕ) (i : FakeIp)
    → i.index < u32
    → nth_new n i ≡ uint_to_ip ((i.start + (i.index + n)) % u32)
unfolding nth_new
nth_new_lem zero i h = ap uint_to_ip (omega arith)
nth_new_lem (suc n) i h =
    nth_new_lem n (new i).1 (unfold new in omega arith) ∙ ap uint_to_ip (unfold new in omega arith)

-- Of the first 2 ^ 32 addresses that a fresh pool hands out, those up to its end lie between its
-- start and its end, and those behind do not.
pub nth_new_in_pool :
    (i : FakeIp) (n : ℕ)
    → i.index ≡ 0
    → i.start ≤ i.end
    → i.end < u32
    → n < u32
    → (v : ℕ) × (ip_to_uint (nth_new n i) ≡ some v)
      × (((i.start ≤ v) × (v ≤ i.end)) ↔ (n ≤ i.end - i.start))
nth_new_in_pool i n fresh ordered bounded h =
    let v : ℕ = (i.start + n) % u32 in
    (
      v,
      ap ip_to_uint (nth_new_lem n i (omega arith))
          ∙ ap (λ (t : ℕ). ip_to_uint (uint_to_ip ((i.start + t) % u32)))
              (let e : i.index + n ≡ n = omega arith in e)
          ∙ ip_to_uint-uint_to_ip v (omega arith),
      ((λ (a, b). omega arith), λ c. (omega arith, omega arith)),
    )

-- Two of the first 2 ^ 32 addresses that a pool hands out are never the same.
pub nth_new-injective :
    (i : FakeIp) (m n : ℕ) → i.index < u32 → m < u32 → n < u32 → m ≢ n → nth_new m i ≢ nth_new n i
nth_new-injective i m n fresh hm hn other e =
    let at = λ (k : ℕ) (hk : k < u32).
      ap ip_to_uint (nth_new_lem k i fresh)
      ∙ ip_to_uint-uint_to_ip ((i.start + (i.index + k)) % u32) (omega arith) in
    other (omega (arith, some_inj (sym (at m hm) ∙ ap ip_to_uint e ∙ at n hn)))
