-- ===== src/Tproxy/Base64.antt =====
-- What tproxy/HttpHandler.go uses of `encoding/base64`: `StdEncoding.EncodeToString`, and a decoder.
use deepin_network_proxy.Prelude.{
  ℕ, ◌+◌, ◌-◌, ◌*◌, ◌/◌, ◌%◌, ◌<◌, ◌≡◌, refl, ap, ap₂, false, ◌&&◌, Option, none, some, [], ◌∷◌,
  arith, ltb, leb, nat_eq, if◌then◌else◌, Bytes, nat_Eq, list_Eq, ◌==◌,
}

-- The alphabet of `StdEncoding`.
unfoldable pub letter : ℕ → ℕ
letter n =
    if ltb n 26
    then n + 65
    else if ltb n 52
    then n + 71
    else if ltb n 62
    then n - 52 + 48
    else if nat_eq n 62
    then 43
    else 47

unfoldable pub letter_value : ℕ → Option ℕ
letter_value c =
    if leb 65 c && leb c 90
    then some (c - 65)
    else if leb 97 c && leb c 122
    then some (c - 71)
    else if leb 48 c && leb c 57
    then some (c - 48 + 52)
    else if nat_eq c 43
    then some 62
    else if nat_eq c 47
    then some 63
    else none

-- Three bytes are four letters; what is left over is filled up with `=`.
abbrev pub encode_to_string : Bytes → Bytes
encode_to_string [] = []
encode_to_string (a ∷ []) = letter (a / 4) ∷ letter (a % 4 * 16) ∷ 61 ∷ 61 ∷ []
encode_to_string (a ∷ b ∷ []) =
    letter (a / 4) ∷ letter (a % 4 * 16 + b / 16) ∷ letter (b % 16 * 4) ∷ 61 ∷ []
encode_to_string (a ∷ b ∷ c ∷ rest) =
    letter (a / 4)
    ∷ letter (a % 4 * 16 + b / 16)
    ∷ letter (b % 16 * 4 + c / 64)
    ∷ letter (c % 64)
    ∷ encode_to_string rest

letter_value-letter : (n : ℕ) → n < 64 → letter_value (letter n) ≡ some n
unfolding letter letter_value
letter_value-letter n h = ground arith

letter-not_filler : (n : ℕ) → nat_eq (letter n) 61 ≡ false
unfolding letter
letter-not_filler n = ground arith

abbrev one_byte : Option ℕ → Option ℕ → Option Bytes
one_byte (some w) (some x) = some ((w * 4 + x / 16) ∷ [])
one_byte _ _ = none

abbrev two_bytes : Option ℕ → Option ℕ → Option ℕ → Option Bytes
two_bytes (some w) (some x) (some y) = some ((w * 4 + x / 16) ∷ (x % 16 * 16 + y / 4) ∷ [])
two_bytes _ _ _ = none

abbrev three_bytes : Option ℕ → Option ℕ → Option ℕ → Option ℕ → Option Bytes → Option Bytes
three_bytes (some w) (some x) (some y) (some z) (some more) =
    some ((w * 4 + x / 16) ∷ (x % 16 * 16 + y / 4) ∷ (y % 4 * 64 + z) ∷ more)
three_bytes _ _ _ _ _ = none

abbrev last_bytes : ℕ → ℕ → ℕ → Option Bytes
last_bytes w x y =
    if nat_eq y 61
    then one_byte (letter_value w) (letter_value x)
    else two_bytes (letter_value w) (letter_value x) (letter_value y)

abbrev pub decode_string : Bytes → Option Bytes
decode_string [] = some []
decode_string (w ∷ x ∷ y ∷ z ∷ rest) =
    let more = decode_string rest in
    if nat_eq z 61
    then (if rest == [] then last_bytes w x y else none)
    else three_bytes (letter_value w) (letter_value x) (letter_value y) (letter_value z) more
decode_string _ = none

-- Each number is a byte.
abbrev pub AreBytes : Bytes → Type 0
AreBytes [] = Unit {0}
AreBytes (b ∷ bs) = (b < 256) × AreBytes bs

high_low : (a b : ℕ) → a < 256 → b < 16 → a / 4 * 4 + (a % 4 * 16 + b) / 16 ≡ a
high_low a b h k = omega arith

mid_low : (p b c : ℕ) → b < 256 → c < 4 → (p * 16 + b / 16) % 16 * 16 + (b % 16 * 4 + c) / 4 ≡ b
mid_low p b c h k = omega arith

low : (q c : ℕ) → c < 256 → (q * 4 + c / 64) % 4 * 64 + c % 64 ≡ c
low q c h = omega arith

pub decode_string-encode_to_string :
    (bs : Bytes) → AreBytes bs → decode_string (encode_to_string bs) ≡ some bs
decode_string-encode_to_string [] h = refl
decode_string-encode_to_string (a ∷ []) (ha, _) =
    rw (letter_value-letter (a / 4) (omega arith), letter_value-letter (a % 4 * 16) (omega arith))
      (ap (λ n. some (n ∷ [])) (omega arith))
decode_string-encode_to_string (a ∷ b ∷ []) (ha, (hb, _)) =
    rw
      (
        letter-not_filler (b % 16 * 4),
        letter_value-letter (a / 4) (omega arith),
        letter_value-letter (a % 4 * 16 + b / 16) (omega arith),
        letter_value-letter (b % 16 * 4) (omega arith),
      )
      (ap₂ (λ m n. some (m ∷ n ∷ [])) (high_low a (b / 16) ha (omega arith)) (omega arith))
decode_string-encode_to_string (a ∷ b ∷ c ∷ rest) (ha, (hb, (hc, hr))) =
    rw
      (
        letter-not_filler (c % 64),
        letter_value-letter (a / 4) (omega arith),
        letter_value-letter (a % 4 * 16 + b / 16) (omega arith),
        letter_value-letter (b % 16 * 4 + c / 64) (omega arith),
        letter_value-letter (c % 64) (omega arith),
        decode_string-encode_to_string rest hr,
        high_low a (b / 16) ha (omega arith),
        mid_low (a % 4) b (c / 64) hb (omega arith),
        low (b % 16) c hc,
      )
      refl
