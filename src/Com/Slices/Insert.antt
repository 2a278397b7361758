-- ===== src/Com/Slices/Insert.antt =====
-- What `MegaInsert` of com/utils.go does to the elements that stand behind the index.
use deepin_network_proxy.Prelude.{
  subst, ℕ, suc, ◌+◌, ◌≤◌, ◌<◌, ◌≡◌, refl, sym, ap, ap₂, ◌∙◌, inl, inr, Bool, true, List, [], ◌∷◌,
  ◌++◌, append-nil, append_assoc, arith, nat_eq, if◌then◌else◌, nat_eq_iff, nat_eq-false, ltb-false,
  Bool-cases, take, drop, Result, ok,
}
use deepin_network_proxy.Com.Slices.{
  Slice, SliceError, visible, front_of, append_slice, mega_insert,
}
use deepin_network_proxy.Com.Slices.Windows.{
  IsSlice, drop-take-overwrite, take-take, visible-append_slice, drop-take_self,
  append_slice-in_place, append_slice-IsSlice,
}

-- The list with `x` put in at index `i`.
abbrev pub insert_at {ℓ} : {A : Type ℓ} → ℕ → A → List A → List A
insert_at i x xs = take i xs ++ (x ∷ drop i xs)

-- What a call of `MegaInsert` leaves in view.
abbrev pub Inserts {ℓ} : {A : Type ℓ} → Result SliceError (Slice A × Bool) → List A → Type ℓ
Inserts {A} r xs = (s : Slice A) × (r ≡ ok (s, true)) × (visible s ≡ xs)

module _ {ℓ} {A : Type ℓ} (spare : ℕ → List A) where
  pub mega_insert-end :
      (s : Slice A) (x : A)
      → IsSlice s
      → Inserts (mega_insert spare s x s.len) (visible s ++ x ∷ [])
  unfolding mega_insert
  mega_insert-end s x h =
      let r = append_slice spare s (x ∷ []) in
      (
        (append_slice spare r.0 []).0,
        rw
            (
              ltb-false s.len s.len (omega arith),
              nat_eq-false (s.len + 1) s.len (λ e. omega arith),
              drop-take_self s.len r.1,
            )
            refl,
        visible-append_slice spare r.0 [] (append_slice-IsSlice spare s (x ∷ []) h)
            ∙ append-nil (visible r.0)
            ∙ visible-append_slice spare s (x ∷ []) h,
      )

  pub mega_insert-last :
      (s : Slice A) (x : A) (i : ℕ)
      → IsSlice s
      → i + 1 ≡ s.len
      → Inserts (mega_insert spare s x i) (take i (visible s) ++ x ∷ [])
  unfolding mega_insert
  mega_insert-last s x i h k = (
    (append_slice spare (front_of s i) (x ∷ [])).0,
    rw (ltb-false s.len i (omega arith), (nat_eq_iff _ _).1 k) refl,
    visible-append_slice spare (front_of s i) (x ∷ []) (omega arith)
        ∙ ap (λ t. t ++ x ∷ []) (sym (take-take i s.len s.array (omega arith))),
  )

  pub mega_insert-middle :
      (s : Slice A) (x : A) (i : ℕ)
      → IsSlice s
      → i + 1 < s.len
      → Inserts (mega_insert spare s x i) (take i (visible s) ++ (x ∷ x ∷ drop (suc i) (visible s)))
  unfolding mega_insert
  mega_insert-middle s x i h k =
      let r = append_slice spare (front_of s i) (x ∷ []) in
      let written = append_slice-in_place spare (front_of s i) (x ∷ []) (omega arith) in
      (
        (append_slice spare r.0 (drop i (take s.len r.1))).0,
        rw (ltb-false s.len i (omega arith), nat_eq-false (i + 1) s.len (λ e. omega arith)) refl,
        visible-append_slice spare r.0 _
              (append_slice-IsSlice spare (front_of s i) (x ∷ []) (omega arith))
            ∙ ap (λ (t : Slice A × List A). visible r.0 ++ drop i (take s.len t.1)) written
            ∙ ap₂ (λ (u v : List A). u ++ v)
                (visible-append_slice spare (front_of s i) (x ∷ []) (omega arith)
                  ∙ ap (λ (t : List A). t ++ x ∷ [])
                      (sym (take-take i s.len s.array (omega arith))))
                (drop-take-overwrite i s.len s.array x (omega arith) h)
            ∙ append_assoc (take i (visible s)) (x ∷ []) (x ∷ drop (suc i) (visible s)),
      )

  -- `MegaInsert` on a well-formed slice, at an index up to its length, succeeds. At the length it puts
  -- `x` behind the rest. At the last element it leaves `x` in that element's place, and at any other it
  -- leaves `x` twice in the place of the element that stood there.
  pub mega_insert_lem :
      (s : Slice A) (x : A) (i : ℕ)
      → IsSlice s
      → i ≤ s.len
      → Inserts (mega_insert spare s x i) (
          if nat_eq i s.len
          then insert_at i x (visible s)
          else take i (visible s)
            ++ (x ∷ (if nat_eq (i + 1) s.len then [] else x ∷ drop (suc i) (visible s))))
  mega_insert_lem s x i h k = elim (Bool-cases (nat_eq i s.len)) [
    | inl at_end ↦
        rw
          (
            at_end,
            (nat_eq_iff i s.len).0 at_end,
            take-take s.len s.len s.array (omega arith),
            drop-take_self s.len s.array,
          )
          (mega_insert-end s x h)
    | inr inside ↦ rw inside (elim (Bool-cases (nat_eq (i + 1) s.len)) [
      | inl last ↦ rw last (mega_insert-last s x i h ((nat_eq_iff (i + 1) s.len).0 last))
      | inr middle ↦ rw middle (mega_insert-middle s x i h (ground arith))
    ])
  ]

  shown_inj :
      (s t : Slice A) {u v : Bool}
      → ◌≡◌ {A = Result SliceError (Slice A × Bool)} (ok (s, u)) (ok (t, v))
      → s ≡ t
  shown_inj s t e = cc

  pub mega_insert-IsSlice :
      (s : Slice A) (x : A) (i : ℕ) {t : Slice A} {update : Bool}
      → IsSlice s
      → i ≤ s.len
      → mega_insert spare s x i ≡ ok (t, update)
      → IsSlice t
  unfolding mega_insert
  mega_insert-IsSlice s x i {t} h k e =
      let r = append_slice spare (front_of s i) (x ∷ []) in
      let first : IsSlice r.0 = append_slice-IsSlice spare (front_of s i) (x ∷ []) (omega arith) in
      elim (Bool-cases (nat_eq (i + 1) s.len)) [
        | inl last ↦
            subst IsSlice (shown_inj r.0 t (rw (mega_insert, ltb-false s.len i k, last) at e)) first
        | inr inner ↦
            subst IsSlice
              (shown_inj (append_slice spare r.0 (drop i (take s.len r.1))).0 t
                (rw (mega_insert, ltb-false s.len i k, inner) at e))
              (append_slice-IsSlice spare r.0 (drop i (take s.len r.1)) first)
      ]
