-- ===== src/Cgroups/Manager/Leads.antt =====
-- A list of paths that begins with a given one, while `MegaDel` shifts it.
use deepin_network_proxy.Define.{scope_Eq}
use deepin_network_proxy.Com.Slices.{Slice, overwrite, mega_del, mega_exist, find_index}
use deepin_network_proxy.Com.Slices.Windows.{IsSlice, append_slice-in_place, overwrite_keeps_room}
use deepin_network_proxy.Com.Slices.Delete.{find_index-Found}
use deepin_network_proxy.Cgroups.{proc_Eq}
use deepin_network_proxy.Prelude.{
  lengths, ℕ, zero, suc, ◌+◌, ◌-◌, ◌≤◌, ◌<◌, ◌≡◌, refl, sym, ap, subst, ◌∙◌, ◌≢◌, inl, inr, false,
  some, List, [], ◌∷◌, ◌++◌, arith, nat_eq, nat_eq-false, Bool-cases, Option-cases, length, take,
  drop, length-append, length-take_le, length-drop, Bytes, nat_Eq, list_Eq, ◌==◌, ==_refl, ==_ne,
}

-- Elements that are in a list or not.
exist-append :
    (b : Bytes) (xs ys : List Bytes)
    → mega_exist xs b ≡ false
    → mega_exist ys b ≡ false
    → mega_exist (xs ++ ys) b ≡ false
unfolding mega_exist
exist-append b [] ys h k = k
exist-append b (x ∷ xs) ys h k = ground (arith, exist-append b xs ys)

exist-take :
    (b : Bytes) (n : ℕ) (xs : List Bytes)
    → mega_exist xs b ≡ false
    → mega_exist (take n xs) b ≡ false
unfolding mega_exist
exist-take b zero xs h = refl
exist-take b (suc n) [] h = refl
exist-take b (suc n) (x ∷ xs) h = ground (arith, exist-take b n xs)

exist-drop :
    (b : Bytes) (n : ℕ) (xs : List Bytes)
    → mega_exist xs b ≡ false
    → mega_exist (drop n xs) b ≡ false
unfolding mega_exist
exist-drop b zero xs h = h
exist-drop b (suc n) [] h = refl
exist-drop b (suc n) (x ∷ xs) h = exist-drop b n xs (ground arith)

-- The array begins with `b`, which is in view, and holds it nowhere else.
pub record Leads (b : Bytes) (s : Slice Bytes) : Type 0 where
  pub others : List Bytes
  pub starts : s.array ≡ b ∷ others
  pub once : mega_exist others b ≡ false
  pub shown : 1 ≤ s.len
  pub fits : IsSlice s

-- A slice cut after `n`, over an array that begins with `b`.
abbrev pub led_by : Bytes → List Bytes → ℕ → Slice Bytes
led_by b bs n = record { array = b ∷ bs; len = n }

overwrite-cons :
    (b : Bytes) (bs ys : List Bytes) (j : ℕ) → overwrite (b ∷ bs) (suc j) ys ≡ b ∷ overwrite bs j ys
overwrite-cons b bs ys j =
    ap (λ (n : ℕ). b ∷ (take j bs ++ (ys ++ drop n (b ∷ bs))))
      (let e : suc j + length ys ≡ suc (j + length ys) = omega arith in e)

mega_del_behind :
    (spare : ℕ → List Bytes) (b x : Bytes) (bs : List Bytes) (p : ℕ)
    → mega_exist bs b ≡ false
    → p ≤ length bs
    → x ≢ b
    → Leads b (mega_del spare (led_by b bs (suc p)) x).0
unfolding mega_del find_index
mega_del_behind spare b x bs p once fits other =
    let apart : (b == x) ≡ false = ==_ne b x (λ e. other (sym e)) in
    elim (Option-cases (find_index x (take p bs))) [
      | inl none_there ↦
          rw (mega_del, find_index, none_there, apart)
            (record {
              others = bs;
              starts = refl;
              once = once;
              shown = omega arith;
              fits = omega arith;
            })
      | inr (j, found) ↦
          let f = (rw found at (find_index-Found x (take p bs))) in
          let small : j < p = omega (arith, f.1, length-take_le p bs fits) in
          rw (mega_del, find_index, found, apart)
            (elim (Bool-cases (nat_eq (suc j + 1) (suc p))) [
              | inl last ↦ rw last (record {
                others = bs;
                starts = refl;
                once = once;
                shown = omega arith;
                fits = omega arith;
              })
              | inr inner ↦
                  let ys : List Bytes = drop (suc j + 1) (b ∷ take p bs) in
                  let room : suc j + length ys ≤ length (b ∷ bs) =
                    omega
                      (arith, length-drop (suc j + 1) (b ∷ take p bs), length-take_le p bs fits) in
                  let none_behind : mega_exist ys b ≡ false =
                    ap (λ (n : ℕ). mega_exist (drop n (b ∷ take p bs)) b)
                      (let e : suc j + 1 ≡ suc (j + 1) = omega arith in e)
                    ∙ exist-drop b (j + 1) (take p bs) (exist-take b p bs once) in
                  rw (inner, append_slice-in_place spare (led_by b bs (suc j)) ys room)
                    (record {
                      others = overwrite bs j ys;
                      starts = overwrite-cons b bs ys j;
                      once =
                          exist-append b (take j bs) _ (exist-take b j bs once) (
                            exist-append b ys _ none_behind (exist-drop b (j + length ys) bs once));
                      shown = omega arith;
                      fits = omega (arith, overwrite_keeps_room (b ∷ bs) (suc j) ys room);
                    })
            ])
    ]

-- Deleting the first of three paths or more leaves the second in front, and nowhere else.
pub mega_del_first :
    (spare : ℕ → List Bytes) (a b c : Bytes) (rest : List Bytes) (q : ℕ)
    → a ≢ b
    → mega_exist (c ∷ rest) b ≡ false
    → q ≤ length rest
    → Leads b (mega_del spare (led_by a (b ∷ c ∷ rest) (suc (suc (suc q)))) a).0
unfolding mega_del find_index
mega_del_first spare a b c rest q other once fits =
    let ys : List Bytes = b ∷ c ∷ take q rest in
    let room : 0 + length ys ≤ length (a ∷ b ∷ c ∷ rest) = grind lengths in
    let stale : mega_exist (drop (0 + length ys) (a ∷ b ∷ c ∷ rest)) b ≡ false =
      ap (λ (n : ℕ). mega_exist (drop n (a ∷ b ∷ c ∷ rest)) b)
        (let e : 0 + length ys ≡ suc (suc (length (take q rest))) = omega arith in e)
      ∙ exist-drop b (length (take q rest)) (c ∷ rest) once in
    let found : find_index a (a ∷ ys) ≡ some 0 = rw (find_index, ==_refl a) refl in
    rw (mega_del, found)
      (rw (append_slice-in_place spare (led_by a (b ∷ c ∷ rest) 0) ys room) (
        rw (nat_eq-false 1 (suc (suc (suc q))) (λ e. omega arith)) (record {
          others = c ∷ (take q rest ++ drop (0 + length ys) (a ∷ b ∷ c ∷ rest));
          starts = refl;
          once = exist-append b (c ∷ take q rest) _ (exist-take b (suc q) (c ∷ rest) once) stale;
          shown = omega arith;
          fits = omega (
            arith,
            length-append (take q rest) (drop (0 + length ys) (a ∷ b ∷ c ∷ rest)),
            length-drop (0 + length ys) (a ∷ b ∷ c ∷ rest),
          );
        })))

-- Any other deletion leaves it there.
pub Leads-mega_del :
    (spare : ℕ → List Bytes) (b x : Bytes) (s : Slice Bytes)
    → Leads b s
    → x ≢ b
    → Leads b (mega_del spare s x).0
Leads-mega_del spare b x s l other =
    let whole : led_by b l.others (suc (s.len - 1)) ≡ s =
      (let same : suc (s.len - 1) ≡ s.len = omega (arith, l.shown) in
        λ i. record { array = sym l.starts i; len = same i }) in
    subst (λ t. Leads b (mega_del spare t x).0) whole
      (mega_del_behind spare b x l.others (s.len - 1) l.once
        (omega (arith, l.fits, ap length l.starts)) other)
