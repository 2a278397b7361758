-- ===== src/Tproxy/Udp/Delivery.antt =====
-- What the program at the other end gets of a datagram: `io.Copy` passes on the first bytes of the
-- buffer, as many as `Read` counts.
use deepin_network_proxy.Com.Package.{unmarshal_package}
use deepin_network_proxy.Tproxy.Udp.{zeros, copy_into, udp_read}
use deepin_network_proxy.Prelude.{
  ℕ, zero, suc, ◌+◌, ◌-◌, ◌≤◌, ◌≡◌, refl, ap, ap₂, ◌∙◌, some, [], ◌∷◌, ◌++◌, append_assoc, arith,
  length, take, drop, length-append, take_all, Bytes, nat_Eq, list_Eq,
}

length-zeros : (n : ℕ) → length (zeros n) ≡ n
length-zeros zero = refl
length-zeros (suc n) = omega (arith, length-zeros n)

take-zeros : (m n : ℕ) (rest : Bytes) → m ≤ n → take m (zeros n ++ rest) ≡ zeros m
take-zeros zero n rest h = refl
take-zeros (suc m) zero rest h = absurd (omega arith)
take-zeros (suc m) (suc n) rest h = ap (◌∷◌ 0) (take-zeros m n rest (omega arith))

take-append_more : (xs ys : Bytes) (m : ℕ) → take (length xs + m) (xs ++ ys) ≡ xs ++ take m ys
take-append_more [] ys m = ap (λ n. take n ys) (omega arith)
take-append_more (x ∷ xs) ys m =
    ap (λ n. take n (x ∷ (xs ++ ys)))
      (let e : suc (length xs) + m ≡ suc (length xs + m) = omega arith in e)
    ∙ ap (◌∷◌ x) (take-append_more xs ys m)

take-copy_into :
    (payload buf : Bytes) (m n : ℕ)
    → m ≤ n
    → length payload + n ≤ length buf
    → take (length payload + m) (copy_into buf (payload ++ zeros n)) ≡ payload ++ zeros m
take-copy_into payload buf m n h room =
    ap (λ t. take (length payload + m) (t ++ drop (length (payload ++ zeros n)) buf))
      (take_all (length buf) (payload ++ zeros n)
        (omega (arith, length-append payload (zeros n), length-zeros n)))
    ∙ ap (take (length payload + m))
        (append_assoc payload (zeros n) (drop (length (payload ++ zeros n)) buf))
    ∙ take-append_more payload (zeros n ++ drop (length (payload ++ zeros n)) buf) m
    ∙ ap (λ t. payload ++ t) (take-zeros m n (drop (length (payload ++ zeros n)) buf) h)

-- A package of ten bytes and a payload of at most 492 is passed on, through a buffer of 512 bytes or
-- more, as the payload with ten zeros behind it: `Read` counts the ten bytes that it has taken off.
pub udp_read_lem :
    (r0 r1 r2 r3 a b c d hi lo : ℕ) (payload buf : Bytes)
    → length payload ≤ 492
    → 512 ≤ length buf
    → (n : ℕ) × (buf' : Bytes) × (udp_read
          (r0 ∷ r1 ∷ r2 ∷ r3 ∷ a ∷ b ∷ c ∷ d ∷ hi ∷ lo ∷ payload)
          buf
        ≡ some (n, buf'))
      × (n ≡ 10 + length payload)
      × (take n buf' ≡ payload ++ zeros 10)
unfolding udp_read unmarshal_package
udp_read_lem r0 r1 r2 r3 a b c d hi lo payload buf small room =
    let whole : take 502 payload ≡ payload = take_all 502 payload (omega arith) in
    (
      length payload + 10,
      copy_into buf (payload ++ zeros (502 - length payload)),
      rw (udp_read, whole)
          (ap₂ (λ (i j : ℕ). some (i, copy_into buf (payload ++ zeros j))) (omega arith)
            (omega arith)),
      omega arith,
      take-copy_into payload buf 10 (502 - length payload) (omega arith) (omega arith),
    )
