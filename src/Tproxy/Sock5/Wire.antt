-- ===== src/Tproxy/Sock5/Wire.antt =====
-- Reading the server's answer from the stream.
use deepin_network_proxy.Tproxy.Conn.{Conn, read_full}
use deepin_network_proxy.Tproxy.Conn.Reads.{stream, read_full_prefix}
use deepin_network_proxy.Tproxy.Sock5.{Bound, address_length, read_reply}
use deepin_network_proxy.Tproxy.Sock5.Request.{Host, v4, v6, name, encode}
use deepin_network_proxy.Prelude.{
  ℕ, ◌<◌, ◌≡◌, refl, ◌∙◌, true, false, List, [], ◌∷◌, ◌++◌, append_assoc, length, Bytes, nat_Eq,
  list_Eq, ok,
}

-- The host fits its field.
abbrev pub Fits : Host → Type 0
Fits (v4 ip) = length ip ≡ 4
Fits (v6 ip) = length ip ≡ 16
Fits (name n) = length n < 256

-- A server's answer: VER REP RSV ATYP BND.ADDR BND.PORT, with REP 0.
abbrev pub reply_bytes : ℕ → Host → Bytes → Bytes
reply_bytes rsv h port = 5 ∷ 0 ∷ rsv ∷ (encode h ++ port)

abbrev pub bound_of : Host → Bytes → Bound
bound_of (v4 ip) port = record { is_domain = false; address = ip; port = port }
bound_of (v6 ip) port = record { is_domain = false; address = ip; port = port }
bound_of (name n) port = record { is_domain = true; address = n; port = port }

abbrev after : Conn → List Bytes → Conn
after c left = record c { incoming = left }

-- VER REP RSV, and ATYP.
head_reads :
    (c : Conn) (rsv atyp : ℕ) (rest : Bytes)
    → stream c.incoming ≡ 5 ∷ 0 ∷ rsv ∷ atyp ∷ rest
    → (mid left : List Bytes) × (read_full 3 c ≡ (ok (5 ∷ 0 ∷ rsv ∷ []), after c mid))
      × (read_full 1 (after c mid) ≡ (ok (atyp ∷ []), after c left))
      × (stream left ≡ rest)
head_reads c rsv atyp rest e =
    let (mid, r, s) = read_full_prefix c (5 ∷ 0 ∷ rsv ∷ []) (atyp ∷ rest) e in
    let (left, r', s') = read_full_prefix (after c mid) (atyp ∷ []) rest s in (mid, left, r, r', s')

-- The address, once its length is known, and the port.
body_reads :
    (c : Conn) (a : Bytes) (hi lo : ℕ) (extra : Bytes)
    → stream c.incoming ≡ (a ++ hi ∷ lo ∷ []) ++ extra
    → (mid left : List Bytes) × (read_full (length a) c ≡ (ok a, after c mid))
      × (read_full 2 (after c mid) ≡ (ok (hi ∷ lo ∷ []), after c left))
      × (stream left ≡ extra)
body_reads c a hi lo extra e =
    let (mid, r, s) =
      read_full_prefix c a (hi ∷ lo ∷ extra) (e ∙ append_assoc a (hi ∷ lo ∷ []) extra) in
    let (left, r', s') = read_full_prefix (after c mid) (hi ∷ lo ∷ []) extra s in
    (mid, left, r, r', s')

-- `Tunnel` reads a well-formed answer to its last byte and no further, however it was cut up.
pub read_reply_lem :
    (c : Conn) (rsv : ℕ) (h : Host) (hi lo : ℕ) (extra : Bytes)
    → Fits h
    → stream c.incoming ≡ reply_bytes rsv h (hi ∷ lo ∷ []) ++ extra
    → (left : List Bytes) × (read_reply c
        ≡ (ok (bound_of h (hi ∷ lo ∷ [])), record c { incoming = left }))
      × (stream left ≡ extra)
unfolding read_reply address_length
read_reply_lem c rsv (v4 ip) hi lo extra f e =
    let (l1, l2, r1, r2, s2) = head_reads c rsv 1 ((ip ++ hi ∷ lo ∷ []) ++ extra) e in
    let (l3, l4, r3, r4, s4) = body_reads (after c l2) ip hi lo extra s2 in
    (l4, rw (r1, r2, rw f at r3, r4) refl, s4)
read_reply_lem c rsv (v6 ip) hi lo extra f e =
    let (l1, l2, r1, r2, s2) = head_reads c rsv 4 ((ip ++ hi ∷ lo ∷ []) ++ extra) e in
    let (l3, l4, r3, r4, s4) = body_reads (after c l2) ip hi lo extra s2 in
    (l4, rw (r1, r2, rw f at r3, r4) refl, s4)
read_reply_lem c rsv (name n) hi lo extra f e =
    let (l1, l2, r1, r2, s2) = head_reads c rsv 3 (length n ∷ ((n ++ hi ∷ lo ∷ []) ++ extra)) e in
    let (l, r, s) =
      read_full_prefix (after c l2) (length n ∷ []) ((n ++ hi ∷ lo ∷ []) ++ extra) s2 in
    let (l3, l4, r3, r4, s4) = body_reads (after c l) n hi lo extra s in
    (l4, rw (r1, r2, r, r3, r4) refl, s4)
