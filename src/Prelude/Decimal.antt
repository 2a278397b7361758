-- ===== src/Prelude/Decimal.antt =====
-- `strconv.Itoa` on a number that is not negative: decimal digits, most significant first.
use Prim.Native.Nat.{ℕ, zero, suc, ◌+◌, ◌*◌, ◌/◌, ◌%◌, ◌<◌}
use mathlib.Core.Path.{◌≡◌, refl, sym, ap, ◌∙◌}
use mathlib.Core.List.{List, [], ◌∷◌, ◌++◌}
use mathlib.Core.Logic.{inl, inr}
use native.Mathlib.Omega.{arith}
use deepin_network_proxy.Prelude.Tests.{ltb, if◌then◌else◌, Bool-cases}

-- On fuel: a number has no more digits than its successor has units.
unfoldable pub digits_upto : ℕ → ℕ → List ℕ
digits_upto zero n = []
digits_upto (suc fuel) n =
    let front = digits_upto fuel (n / 10) in
    if ltb n 10 then (48 + n) ∷ [] else front ++ (48 + n % 10) ∷ []

unfoldable pub itoa : ℕ → List ℕ
itoa n = digits_upto (suc n) n

-- The number that a list of digits stands for.
unfoldable pub value_of : ℕ → List ℕ → ℕ
value_of acc [] = acc
value_of acc (c ∷ cs) = value_of (acc * 10 + c % 48) cs

value_of-append :
    (acc c : ℕ) (xs : List ℕ) → value_of acc (xs ++ c ∷ []) ≡ value_of acc xs * 10 + c % 48
unfolding value_of
value_of-append acc c [] = refl
value_of-append acc c (x ∷ xs) = value_of-append (acc * 10 + x % 48) c xs

value_of-digits_upto : (fuel n : ℕ) → n < fuel → value_of 0 (digits_upto fuel n) ≡ n
unfolding digits_upto
value_of-digits_upto zero n h = elim h [ ]
value_of-digits_upto (suc fuel) n h = elim (Bool-cases (ltb n 10)) [
  | inl small ↦ rw small (unfold value_of in ground arith)
  | inr large ↦ rw large (
      omega (
        arith,
        value_of-append 0 (48 + n % 10) (digits_upto fuel (n / 10)),
        value_of-digits_upto fuel (n / 10) (ground arith),
      ))
]

-- The fuel is enough: the digits read back as the number.
pub value_of-itoa : (n : ℕ) → value_of 0 (itoa n) ≡ n
unfolding itoa
value_of-itoa n = value_of-digits_upto (suc n) n (omega arith)

pub itoa-injective : (m n : ℕ) → itoa m ≡ itoa n → m ≡ n
itoa-injective m n h = sym (value_of-itoa m) ∙ ap (value_of 0) h ∙ value_of-itoa n
