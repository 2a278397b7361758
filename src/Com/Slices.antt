-- ===== src/Com/Slices.antt =====
-- com/utils.go, `MegaAdd`, `MegaInsert`, `MegaDel` and `MegaExist`.
-- A Go slice is a window on a backing array: `reflect.Append` writes through the array while the
-- capacity lasts, so the windows `front` and `back` of these functions alias. `spare` is the extra
-- capacity that the Go runtime leaves when it has to move a slice to a new array.
-- The checks on kinds and element types are settled by the types here.
pub mod Windows
pub mod Insert
pub mod Delete
use deepin_network_proxy.Prelude.{
  ℕ, suc, ◌+◌, ◌-◌, Bool, true, false, ◌||◌, List, [], ◌∷◌, ◌++◌, Option, none, some, Result, ok,
  err, if◌then◌else◌, ltb, leb, nat_eq, length, take, drop, Eq, ◌==◌,
}

pub record Slice {ℓ} (A : Type ℓ) : Type ℓ where
  pub array : List A
  pub len : ℕ

pub data SliceError : Type 0 where
  insert_out_of_range : SliceError

module _ {ℓ} {A : Type ℓ} where
  -- What the program sees of a slice.
  abbrev pub visible : Slice A → List A
  visible s = take s.len s.array

  -- `copy` into the array, from index `i` on.
  abbrev pub overwrite : List A → ℕ → List A → List A
  overwrite a i ys = take i a ++ (ys ++ drop (i + length ys) a)

  -- `values.Slice(0, i)`.
  abbrev pub front_of : Slice A → ℕ → Slice A
  front_of s i = record s { len = i }

module _ {ℓ} {A : Type ℓ} (spare : ℕ → List A) where
  -- `reflect.AppendSlice`, with the backing array of the old slice afterwards.
  unfoldable pub append_slice : Slice A → List A → Slice A × List A
  append_slice s ys =
      let n = s.len + length ys in
      if leb n (length s.array)
      then (record { array = overwrite s.array s.len ys; len = n }, overwrite s.array s.len ys)
      else (record { array = visible s ++ (ys ++ spare n); len = n }, s.array)

  -- `MegaInsert` on a slice.
  unfoldable pub mega_insert : Slice A → A → ℕ → Result SliceError (Slice A × Bool)
  mega_insert s tgt index =
      if ltb s.len index
      then err insert_out_of_range
      else let (result, array) = append_slice (front_of s index) (tgt ∷ []) in
        if nat_eq (index + 1) s.len
        then ok (result, true)
        else ok ((append_slice result (drop index (take s.len array))).0, true)

module _ {ℓ} {A : Type ℓ} ⦃e : Eq A⦄ where
  -- The search loop of `MegaAdd` and `MegaDel`, which counts `index` up to the first equal element.
  unfoldable pub find_index : A → List A → Option ℕ
  find_index tgt [] = none
  find_index tgt (x ∷ xs) =
      let rest = find_index tgt xs in
      if x == tgt then some 0 else elim rest [ none ↦ none | some i ↦ some (suc i) ]

  -- `MegaExist` on a slice.
  unfoldable pub mega_exist : List A → A → Bool
  mega_exist [] tgt = false
  mega_exist (x ∷ xs) tgt = x == tgt || mega_exist xs tgt

module _ {ℓ} {A : Type ℓ} ⦃e : Eq A⦄ (spare : ℕ → List A) where
  -- `MegaAdd` on a slice; the flag is the function's second result.
  unfoldable pub mega_add : Slice A → A → Slice A × Bool
  mega_add s tgt = elim (find_index tgt (visible s)) [
    | some _ ↦ (s, false)
    | none ↦ ((append_slice spare s (tgt ∷ [])).0, true)
  ]

  -- `MegaDel` on a slice: the result, the flag, and the array of the argument afterwards.
  unfoldable pub mega_del : Slice A → A → Slice A × Bool × List A
  mega_del s tgt = elim (find_index tgt (visible s)) [
    | none ↦ (s, false, s.array)
    | some index ↦
        if nat_eq (index + 1) s.len
        then (front_of s index, true, s.array)
        else let (result, array) =
            append_slice spare (front_of s index) (drop (index + 1) (visible s)) in
          (result, true, array)
  ]
