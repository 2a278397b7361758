-- ===== src/Tproxy/Conn/Reads.antt =====
-- `io.ReadFull` sees the stream, not its chunks.
use deepin_network_proxy.Tproxy.Conn.{
  Conn, Talk, continue, ◌>>=◌, ◌>>◌, read_full, take_full, write, read,
}
use deepin_network_proxy.Prelude.{
  refl, err, take_all, le→leb, drop-append_length, take-append_length, ok, cut_behind, cut_inside,
  ℕ, ◌-◌, ◌≤◌, ◌<◌, ◌≡◌, sym, ap, ◌∙◌, inl, inr, none, some, List, [], ◌∷◌, ◌++◌, arith, leb,
  leb→le, Bool-cases, length, take, drop, length-append, Bytes, nat_Eq, list_Eq,
}

-- The bytes of the chunks, in order.
abbrev pub stream : List Bytes → Bytes
stream [] = []
stream (c ∷ cs) = c ++ stream cs

-- Chunks whose bytes are these.
pub take_full_lem :
    (n : ℕ) (chunks : List Bytes)
    → n ≤ length (stream chunks)
    → (left : List Bytes) × (take_full n chunks ≡ some (take n (stream chunks), left))
      × (stream left ≡ drop n (stream chunks))
unfolding take_full
take_full_lem n [] h = ([], ground arith, ground arith)
take_full_lem n (c ∷ cs) h = elim (Bool-cases (leb n (length c))) [
  | inl fits ↦
      let cut = cut_inside n c (stream cs) (leb→le n (length c) fits) in
      (drop n c ∷ cs, rw fits (ap (λ t. some (t, drop n c ∷ cs)) (sym cut.0)), sym cut.1)
  | inr longer ↦
      let cut = cut_behind n c (stream cs) (ground arith) in
      let (left, e, r) =
        take_full_lem (n - length c) cs (ground (arith, length-append c (stream cs))) in
      (left, rw longer (rw (e, take_full) (ap (λ t. some (t, left)) (sym cut.0))), r ∙ sym cut.1)
]

pub take_full_short :
    (n : ℕ) (chunks : List Bytes) → length (stream chunks) < n → take_full n chunks ≡ none
unfolding take_full
take_full_short n [] h = ground arith
take_full_short n (c ∷ cs) h =
    ground (arith, length-append c (stream cs), take_full_short (n - length c) cs)

-- If the stream begins with `xs`, a `ReadFull` of that length takes `xs`, however it was cut up.
pub read_full_prefix :
    (c : Conn) (xs ys : Bytes)
    → stream c.incoming ≡ xs ++ ys
    → (left : List Bytes) × (read_full (length xs) c ≡ (ok xs, record c { incoming = left }))
      × (stream left ≡ ys)
unfolding read_full
read_full_prefix c xs ys h =
    let (left, e, r) =
      take_full_lem (length xs) c.incoming (omega (arith, ap length h, length-append xs ys)) in
    (
      left,
      rw (e, read_full)
          (ap (λ (t : Bytes). (ok t, record c { incoming = left }))
            (ap (take (length xs)) h ∙ take-append_length xs ys)),
      r ∙ ap (drop (length xs)) h ∙ drop-append_length xs ys,
    )

pub write_lem :
    (buf : Bytes) (c : Conn)
    → 1 ≤ c.writes_left
    → write buf c ≡ (ok tt, record c { sent = c.sent ++ buf ∷ []; writes_left = c.writes_left - 1 })
unfolding write
write_lem buf c h = ground arith

-- A `Read` into a buffer that the next chunk fits in.
pub read_lem :
    (n : ℕ) (c : Conn) (chunk : Bytes) (rest : List Bytes)
    → c.incoming ≡ chunk ∷ rest
    → length chunk ≤ n
    → read n c ≡ (ok chunk, record c { incoming = rest })
unfolding read
read_lem n c chunk rest e h = rw (e, le→leb _ _ h, take_all n chunk h) refl

-- A chain that goes on after `f`.
pub >>=-assoc :
    {A B : Type 0} (m : Talk A) (f : A → Talk (Unit {0})) (k : Talk B) (c : Conn)
    → (m >>= (λ x. f x >> k)) c ≡ ((m >>= f) >> k) c
>>=-assoc m f k c =
    elim (m c).0
      as (λ r.
        continue r (m c).1 (λ x. f x >> k)
        ≡ continue (continue r (m c).1 f).0 (continue r (m c).1 f).1 (λ _. k)) [
          | ok a ↦ refl
          | err e ↦ refl
        ]
