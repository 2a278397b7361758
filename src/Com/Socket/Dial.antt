-- ===== src/Com/Socket/Dial.antt =====
-- What MegaDial of com/utils.go has done when it gives a connection.
use deepin_network_proxy.Prelude.{
  ℕ, ◌≡◌, refl, sym, ap, inl, inr, Bool, true, false, Option, none, some, List, [], ◌∷◌, ◌++◌,
  arith, Bool-cases, Option-cases, Bytes, nat_Eq, list_Eq, some_inj, Result, ok, err,
}
use mathlib.Core.Option.{none-ne-some}
use deepin_network_proxy.Com.Address.{Addr}
use deepin_network_proxy.Com.Socket.{
  SockAddr, SocketError, refused, types_differ, ip_incorrect, convert_addr_to_sock_addr, Numbers,
  Call, sockets, set_transparent, binds, connects, makes_conn, Dialled, ip_of, same_type, domain_of,
  typ_of, try, given, make_conn, connect, bind, with_remote, with_local, prepare, dial_from,
  mega_dial,
}

abbrev is_ok : Dialled → Bool
is_ok (made, ok f) = true
is_ok (made, err e) = false

abbrev file_of : Dialled → ℕ
file_of (made, ok f) = f
file_of (made, err e) = 0

failed_ok :
    {made m : List Call} {e : SocketError} {f : ℕ}
    → ◌≡◌ {A = Dialled} (made, err e) (m, ok f)
    → false ≡ true
failed_ok h = ap is_ok h

module _ (N : Numbers) (fd : ℕ) (allows : Call → Bool) where
  try-ok :
      (c : Call) (made : List Call) (k : List Call → Dialled) {m : List Call} {f : ℕ}
      → try N fd allows c made k ≡ (m, ok f)
      → (allows c ≡ true) × (k (made ++ c ∷ []) ≡ (m, ok f))
  try-ok c made k e = elim (Bool-cases (allows c)) [
    | inl good ↦ (good, rw good at e)
    | inr bad ↦
        let no : ◌≡◌ {A = Dialled} (made ++ c ∷ [], err refused) (_, ok _) = rw bad at e in
        let never = failed_ok no in ground arith
  ]

  given-ok :
      (a : Result SocketError SockAddr) (made : List Call) (k : SockAddr → Dialled) {m : List Call}
      {f : ℕ}
      → given N fd allows a made k ≡ (m, ok f)
      → (s : SockAddr) × (a ≡ ok s) × (k s ≡ (m, ok f))
  given-ok (err x) made k e = let never = failed_ok e in ground arith
  given-ok (ok s) made k e = (s, refl, e)

  -- The calls of a dial that has succeeded.
  abbrev pub dial_calls : ℕ → ℕ → SockAddr → SockAddr → List Call
  dial_calls domain typ l r =
      sockets domain typ ∷ set_transparent fd ∷ binds fd l ∷ connects fd r ∷ makes_conn fd ∷ []

  dial_from-ok :
      (domain typ : ℕ) (l_addr r_addr : Addr) {m : List Call} {f : ℕ}
      → dial_from N fd allows domain typ l_addr r_addr ≡ (m, ok f)
      → (l : SockAddr) × (r : SockAddr) × (convert_addr_to_sock_addr l_addr ≡ ok l)
        × (convert_addr_to_sock_addr r_addr ≡ ok r)
        × (m ≡ dial_calls domain typ l r)
        × (f ≡ fd)
  unfolding dial_from
  dial_from-ok domain typ l_addr r_addr e =
      let m1 = sockets domain typ ∷ [] in
      let m2 = m1 ++ set_transparent fd ∷ [] in
      let (_, e1) = try-ok (sockets domain typ) [] (prepare N fd allows l_addr r_addr) e in
      let (_, e2) = try-ok (set_transparent fd) m1 (with_local N fd allows l_addr r_addr) e1 in
      let (l, lo, e3) =
        given-ok (convert_addr_to_sock_addr l_addr) m2 (with_remote N fd allows r_addr m2) e2 in
      let (r, ro, e4) =
        given-ok (convert_addr_to_sock_addr r_addr) m2 (λ r. bind N fd allows l r m2) e3 in
      let m3 = m2 ++ binds fd l ∷ [] in
      let (_, e5) = try-ok (binds fd l) m2 (connect N fd allows r) e4 in
      let (_, e6) = try-ok (connects fd r) m3 (make_conn N fd allows) e5 in
      let (_, e7) = try-ok (makes_conn fd) (m3 ++ connects fd r ∷ []) (λ made. (made, ok fd)) e6 in
      (l, r, lo, ro, ap (λ (q : Dialled). q.0) (sym e7), ap file_of (sym e7))

  -- When `MegaDial` gives a connection, both addresses are of one type, and the calls were these, in
  -- order: a socket of the domain of the local address, made transparent, bound to that address and
  -- connected to the remote one.
  pub mega_dial-ok :
      (network : Bytes) (l_addr r_addr : Addr) {m : List Call} {f : ℕ}
      → mega_dial N fd allows network l_addr r_addr ≡ some (m, ok f)
      → (ip : Bytes) × (domain : ℕ) × (l : SockAddr) × (r : SockAddr) × (same_type l_addr r_addr
          ≡ true)
        × (ip_of l_addr ≡ some ip)
        × (domain_of N ip ≡ some domain)
        × (convert_addr_to_sock_addr l_addr ≡ ok l)
        × (convert_addr_to_sock_addr r_addr ≡ ok r)
        × (m ≡ dial_calls domain (typ_of N network) l r)
        × (f ≡ fd)
  unfolding mega_dial
  mega_dial-ok network l_addr r_addr e = elim (Bool-cases (same_type l_addr r_addr)) [
    | inr differ ↦
        let no : ◌≡◌ {A = Option Dialled} (some ([], err types_differ)) (some (_, ok _)) =
          rw differ at e in
        let never = failed_ok (some_inj no) in ground arith
    | inl same ↦ elim (Option-cases (ip_of l_addr)) [
      | inl missing ↦
          let no : ◌≡◌ {A = Option Dialled} none (some (_, ok _)) = rw (same, missing) at e in
          absurd (none-ne-some _ no)
      | inr (ip, known) ↦ elim (Option-cases (domain_of N ip)) [
        | inl bad ↦
            let no : ◌≡◌ {A = Option Dialled} (some ([], err ip_incorrect)) (some (_, ok _)) =
              rw (same, known, bad) at e in
            let never = failed_ok (some_inj no) in ground arith
        | inr (domain, good) ↦
            let dialled : ◌≡◌ {A = Option Dialled}
                (some (dial_from N fd allows domain (typ_of N network) l_addr r_addr))
                (some (_, ok _)) =
              rw (same, known, good) at e in
            let (l, r, lo, ro, calls, file) =
              dial_from-ok domain (typ_of N network) l_addr r_addr (some_inj dialled) in
            (ip, domain, l, r, same, known, good, lo, ro, calls, file)
      ]
    ]
  ]
