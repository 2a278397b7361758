-- ===== src/Com/Slices/Delete.antt =====
-- `MegaAdd` and `MegaDel` of com/utils.go against plain lists.
use deepin_network_proxy.Prelude.{
  lengths, ◌≤◌, ℕ, suc, ◌+◌, ◌-◌, ◌<◌, ◌≡◌, refl, sym, ap₂, ◌∙◌, inl, inr, Bool, true, false, not,
  Option, none, some, List, [], ◌∷◌, ◌++◌, append-nil, append_assoc, arith, nat_eq, if◌then◌else◌,
  nat_eq_iff, Bool-cases, Option-cases, length, take, drop, take-append-drop, length-take_le, Eq,
  ◌==◌,
}
use deepin_network_proxy.Com.Slices.{Slice, visible, front_of, mega_add, mega_del, overwrite}
use deepin_network_proxy.Com.Slices.Windows.{
  append_slice-IsSlice, IsSlice, take-overwrite, take-take, visible-append_slice,
  append_slice-in_place, take-overwrite_window, drop-take_self,
}
use deepin_network_proxy.Com.Slices.{find_index, mega_exist}

module _ {ℓ} {A : Type ℓ} ⦃e : Eq A⦄ where
  -- The list without the first element equal to `a`.
  unfoldable pub remove_first : A → List A → List A
  remove_first a [] = []
  remove_first a (x ∷ xs) = if x == a then xs else x ∷ remove_first a xs

  pub remove_first_absent : (a : A) (xs : List A) → mega_exist xs a ≡ false → remove_first a xs ≡ xs
  unfolding mega_exist remove_first
  remove_first_absent a [] h = refl
  remove_first_absent a (x ∷ xs) h = ground (arith, remove_first_absent a xs)

  abbrev pub Found : A → List A → Option ℕ → Type ℓ
  Found a xs none = (mega_exist xs a ≡ false) × (remove_first a xs ≡ xs)
  Found a xs (some i) =
      (mega_exist xs a ≡ true)
      × (i < length xs)
      × (remove_first a xs ≡ take i xs ++ drop (suc i) xs)

  pub find_index-Found : (a : A) (xs : List A) → Found a xs (find_index a xs)
  unfolding find_index mega_exist remove_first
  find_index-Found a [] = (refl, refl)
  find_index-Found a (x ∷ xs) = ground (arith, find_index-Found a xs)

-- The two shapes of a removal at index `i` of a window.
module _ {ℓ} {A : Type ℓ} (s : Slice A) (i : ℕ) (h : IsSlice s) where
  cut_last : i + 1 ≡ s.len → take i (visible s) ++ drop (suc i) (visible s) ≡ take i s.array
  cut_last k =
      rw
        (
          let e : suc i ≡ s.len = omega arith in e,
          drop-take_self s.len s.array,
          append-nil (take i (visible s)),
        )
        (take-take i s.len s.array (omega arith))

  last_stays :
      i + 1 ≡ s.len
      → visible s ≡ (take i (visible s) ++ drop (suc i) (visible s)) ++ drop (s.len - 1) (visible s)
  last_stays k =
      rw
        (
          cut_last k,
          let e : s.len - 1 ≡ i = omega arith in e,
          ← take-take i s.len s.array (omega arith),
        )
        (sym (take-append-drop i (visible s)))

  room : i < s.len → i + length (drop (i + 1) (visible s)) ≡ s.len - 1
  room k = grind lengths

  shifted :
      i < s.len
      → take s.len (overwrite s.array i (drop (i + 1) (visible s)))
        ≡ (take i (visible s) ++ drop (suc i) (visible s)) ++ drop (s.len - 1) (visible s)
  shifted k =
      take-overwrite_window i s.len s.array (drop (i + 1) (visible s)) (omega (arith, room k)) h
      ∙ rw (room k, let e : i + 1 ≡ suc i = omega arith in e)
          (sym (
            append_assoc (take i (visible s)) (drop (suc i) (visible s))
              (drop (s.len - 1) (visible s))))

module _ {ℓ} {A : Type ℓ} ⦃e : Eq A⦄ (spare : ℕ → List A) where
  -- `MegaAdd` on a well-formed slice puts the target at the end if it is not there yet, changes
  -- nothing if it is, and its flag says which.
  pub mega_add_lem :
      (s : Slice A) (a : A)
      → IsSlice s
      → (visible (mega_add spare s a).0
          ≡ (if mega_exist (visible s) a then visible s else visible s ++ a ∷ []))
        × ((mega_add spare s a).1 ≡ not (mega_exist (visible s) a))
  unfolding mega_add
  mega_add_lem s a h = elim (Option-cases (find_index a (visible s))) [
    | inl missing ↦
        let f = (rw missing at (find_index-Found a (visible s))) in
        rw (missing, mega_add, f.0) (visible-append_slice spare s (a ∷ []) h, refl)
    | inr (i, found) ↦
        let f = (rw found at (find_index-Found a (visible s))) in
        rw (found, mega_add, f.0) (refl, refl)
  ]

  -- The array that `MegaDel` leaves behind, seen through the old slice: the last element stays twice.
  abbrev pub Leaves : List A → Bool → List A → List A → ℕ → Type ℓ
  Leaves after true removed before n = after ≡ removed ++ drop (n - 1) before
  Leaves after false removed before n = after ≡ before

  -- `MegaDel` on a well-formed slice shows the list without the first element equal to the target,
  -- and its flag says whether there was one. If there was, the old slice then shows that shorter list
  -- with its old last element behind it, and otherwise what it showed.
  pub mega_del_lem :
      (s : Slice A) (a : A)
      → IsSlice s
      → let r = mega_del spare s a in
        (visible r.0 ≡ remove_first a (visible s))
        × (r.1 ≡ mega_exist (visible s) a)
        × Leaves (take s.len r.2) r.1 (remove_first a (visible s)) (visible s) s.len
  unfolding mega_del
  mega_del_lem s a h = elim (Option-cases (find_index a (visible s))) [
    | inl missing ↦
        let f = (rw missing at (find_index-Found a (visible s))) in
        rw (missing, mega_del, f.0, f.1) (refl, refl, refl)
    | inr (i, found) ↦
        let f = (rw found at (find_index-Found a (visible s))) in
        let i_lt : i < s.len = omega (arith, f.1, length-take_le s.len s.array h) in
        rw (found, mega_del, f.0, f.2)
          (elim (Bool-cases (nat_eq (i + 1) s.len)) [
            | inl last ↦
                let k = (nat_eq_iff (i + 1) s.len).0 last in
                rw last (sym (cut_last s i h k), refl, last_stays s i h k)
            | inr middle ↦ rw middle (
                rw
                  (append_slice-in_place spare (front_of s i) (drop (i + 1) (visible s))
                    (omega (arith, room s i h i_lt)))
                  (
                    take-overwrite i s.array (drop (i + 1) (visible s)) (omega arith)
                        ∙ ap₂ (λ (u : List A) (n : ℕ). u ++ drop n (visible s))
                            (sym (take-take i s.len s.array (omega arith)))
                            (let k : i + 1 ≡ suc i = omega arith in k),
                    refl,
                    shifted s i h i_lt,
                  ))
          ])
  ]

  pub mega_del-IsSlice : (s : Slice A) (a : A) → IsSlice s → IsSlice (mega_del spare s a).0
  unfolding mega_del
  mega_del-IsSlice s a h = elim (Option-cases (find_index a (visible s))) [
    | inl missing ↦ rw (mega_del, missing) h
    | inr (i, found) ↦
        let f = (rw found at (find_index-Found a (visible s))) in
        let small : i ≤ length s.array = omega (arith, f.1, length-take_le s.len s.array h) in
        (elim (Bool-cases (nat_eq (i + 1) s.len)) [
          | inl last ↦ rw (mega_del, found, last) small
          | inr inner ↦
              rw (mega_del, found, inner)
                (append_slice-IsSlice spare (front_of s i) (drop (i + 1) (visible s)) small)
        ])
  ]
