-- ===== src/Com/Slices/Windows.antt =====
-- What appending through a window does to the array below it.
use Prim.Native.Nat.add
use deepin_network_proxy.Prelude.{
  lengths, leb→le, le→leb, length-drop, ℕ, zero, suc, ◌+◌, ◌≤◌, ◌<◌, ◌≡◌, refl, ap, sym, List, [],
  ◌∷◌, ◌++◌, arith, length, take, drop, Bool-cases, inl, inr, leb, length-append, append_assoc,
  take-append_length, length-take_le,
}
use deepin_network_proxy.Com.Slices.{Slice, visible, overwrite, append_slice}

-- A slice never reaches past its array.
abbrev pub IsSlice {ℓ} : {A : Type ℓ} → Slice A → Type 0
IsSlice s = s.len ≤ length s.array

module _ {ℓ} {A : Type ℓ} where
  pub take-overwrite :
      (i : ℕ) (a ys : List A)
      → i ≤ length a
      → take (i + length ys) (overwrite a i ys) ≡ take i a ++ ys
  take-overwrite zero a ys h = rw add.zero (take-append_length ys (drop (length ys) a))
  take-overwrite (suc i) [] ys h = elim h [ ]
  take-overwrite (suc i) (x ∷ a) ys h =
      rw add.suc (ap (◌∷◌ x) (take-overwrite i a ys (omega arith)))

  pub drop-take-overwrite :
      (i n : ℕ) (a : List A) (x : A)
      → i < n
      → n ≤ length a
      → drop i (take n (overwrite a i (x ∷ []))) ≡ x ∷ drop (suc i) (take n a)
  drop-take-overwrite i zero a x h k = elim h [ ]
  drop-take-overwrite i (suc n) [] x h k = elim k [ ]
  drop-take-overwrite zero (suc n) (y ∷ a) x h k = refl
  drop-take-overwrite (suc i) (suc n) (y ∷ a) x h k =
      rw add.suc (drop-take-overwrite i n a x (omega arith) (omega arith))

  pub take-take : (i n : ℕ) (a : List A) → i ≤ n → take i (take n a) ≡ take i a
  take-take zero n a h = refl
  take-take (suc i) zero a h = elim h [ ]
  take-take (suc i) (suc n) [] h = refl
  take-take (suc i) (suc n) (x ∷ a) h = ap (◌∷◌ x) (take-take i n a (omega arith))

  pub take_grown :
      (n : ℕ) (v ys sp : List A) → length v ≡ n → take (n + length ys) (v ++ (ys ++ sp)) ≡ v ++ ys
  take_grown n v ys sp e =
      rw (sym e, ← length-append v ys, ← append_assoc v ys sp) (take-append_length (v ++ ys) sp)

  pub drop-take_self : (n : ℕ) (a : List A) → drop n (take n a) ≡ []
  drop-take_self zero a = refl
  drop-take_self (suc n) [] = refl
  drop-take_self (suc n) (x ∷ a) = drop-take_self n a

  pub overwrite_keeps_room :
      (a : List A) (i : ℕ) (ys : List A)
      → i + length ys ≤ length a
      → length (overwrite a i ys) ≡ length a
  overwrite_keeps_room a i ys h = omega (
    arith,
    length-append (take i a) (ys ++ drop (i + length ys) a),
    length-append ys (drop (i + length ys) a),
    length-take_le i a (omega arith),
    length-drop (i + length ys) a,
  )

  -- A window sees a write inside it as a write to what it sees.
  pub take-overwrite_window :
      (i n : ℕ) (a ys : List A)
      → i + length ys ≤ n
      → n ≤ length a
      → take n (overwrite a i ys) ≡ overwrite (take n a) i ys
  take-overwrite_window zero n a [] h k = refl
  take-overwrite_window zero zero a (y ∷ ys) h k = absurd (omega arith)
  take-overwrite_window zero (suc n) [] (y ∷ ys) h k = elim k [ ]
  take-overwrite_window zero (suc n) (x ∷ a) (y ∷ ys) h k = rw add.zero (
      ap (◌∷◌ y) (
        rw (add.zero (length ys)) at
          (take-overwrite_window zero n a ys (omega arith) (omega arith))))
  take-overwrite_window (suc i) zero a ys h k = absurd (omega arith)
  take-overwrite_window (suc i) (suc n) [] ys h k = elim k [ ]
  take-overwrite_window (suc i) (suc n) (x ∷ a) ys h k =
      rw add.suc (ap (◌∷◌ x) (take-overwrite_window i n a ys (omega arith) (omega arith)))

module _ {ℓ} {A : Type ℓ} (spare : ℕ → List A) where
  pub visible-append_slice :
      (s : Slice A) (ys : List A)
      → IsSlice s
      → visible (append_slice spare s ys).0 ≡ visible s ++ ys
  unfolding append_slice
  visible-append_slice s ys h = elim (Bool-cases (leb (s.len + length ys) (length s.array))) [
    | inl fits ↦ rw fits (take-overwrite s.len s.array ys h)
    | inr grows ↦ rw grows (take_grown s.len (visible s) ys _ (length-take_le s.len s.array h))
  ]

  -- With room left in the array, the old slice's array is written.
  pub append_slice-in_place :
      (s : Slice A) (ys : List A)
      → s.len + length ys ≤ length s.array
      → append_slice spare s ys ≡ (
        record { array = overwrite s.array s.len ys; len = s.len + length ys },
        overwrite s.array s.len ys,
      )
  unfolding append_slice
  append_slice-in_place s ys h = rw (le→leb _ _ h)

  pub append_slice-IsSlice :
      (s : Slice A) (ys : List A) → IsSlice s → IsSlice (append_slice spare s ys).0
  unfolding append_slice
  append_slice-IsSlice s ys h = elim (Bool-cases (leb (s.len + length ys) (length s.array))) [
    | inl fits ↦
        rw fits (rw (overwrite_keeps_room s.array s.len ys (leb→le _ _ fits)) (leb→le _ _ fits))
    | inr grows ↦ rw grows (grind lengths)
  ]
