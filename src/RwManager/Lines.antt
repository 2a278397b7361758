-- ===== src/RwManager/Lines.antt =====
-- The line that is read, and how many lines a deletion leaves.
use deepin_network_proxy.Prelude.{
  ◌+◌, ◌-◌, ◌≤◌, ◌<◌, ◌≡◌, refl, ◌⊎◌, inl, inr, false, arith, leb, nat_eq, nat_eq_iff, leb-false,
  Bool-cases, Option-cases, length, get_elem?, take, drop, length-append, length-take_le,
  length-drop, nat_Eq, list_Eq,
}
use deepin_network_proxy.RwManager.{LineManager, done, panicked, read_line, del_line}

-- `ReadLine` gives the same line each time.
read_line_again : (f : LineManager) → (read_line (read_line f).1).0 ≡ (read_line f).0
unfolding read_line
read_line_again f = elim (Option-cases (get_elem? f.buf_sl f.index)) [
  | inl e ↦ rw (read_line, e) (rw e refl)
  | inr (buf, e) ↦ rw (read_line, e) (rw e refl)
]

-- `DelLine` takes one line out in front of the last one, two at the last one, and panics where the last
-- line is the first.
length-del_line :
    (f : LineManager)
    → f.index < length f.buf_sl
    → ((f.index + 1 < length f.buf_sl)
        × ((del_line f).0 ≡ done tt)
        × (length (del_line f).1.buf_sl + 1 ≡ length f.buf_sl))
      ⊎ ((f.index + 1 ≡ length f.buf_sl)
          × ((f.index ≡ 0) × ((del_line f).0 ≡ panicked)
              ⊎ ((del_line f).0 ≡ done tt) × (length (del_line f).1.buf_sl + 2 ≡ length f.buf_sl)))
unfolding del_line
length-del_line f inside =
    let xs = f.buf_sl in
    let i = f.index in
    let stays : leb (length xs) i ≡ false = leb-false (length xs) i inside in
    elim (Bool-cases (nat_eq (i + 1) (length xs))) [
      | inl last ↦
          let here : i + 1 ≡ length xs = (nat_eq_iff (i + 1) (length xs)).0 last in
          elim (Bool-cases (nat_eq i 0)) [
            | inl first ↦ inr (
              here,
              inl ((nat_eq_iff i 0).0 first, rw (del_line, stays) (rw last (rw first refl))),
            )
            | inr later ↦
                let below : 1 ≤ i = ground (arith, nat_eq_iff i 0) in
                inr (
                  here,
                  inr (
                    rw (del_line, stays) (rw last (rw later refl)),
                    rw (del_line, stays)
                        (rw last (rw later (omega (arith, here, length-take_le (i - 1) xs)))),
                  ),
                )
          ]
      | inr before ↦
          let inner : i + 1 < length xs = ground (arith, nat_eq_iff (i + 1) (length xs)) in
          inl (
            inner,
            rw (del_line, stays) (rw before refl),
            rw (del_line, stays)
                (rw before (
                  omega (
                    arith,
                    length-append (take i xs) (drop (i + 1) xs),
                    length-take_le i xs,
                    length-drop (i + 1) xs,
                  ))),
          )
    ]
