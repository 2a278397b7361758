-- ===== src/Tproxy/Relay/Copies.antt =====
-- A round of the loop of Go's io.Copy.
use mathlib.Core.Bool.{false≢true}
use deepin_network_proxy.Prelude.{
  ℕ, zero, suc, ◌+◌, ◌≤◌, ◌<◌, ◌≡◌, refl, sym, ap, ◌∙◌, ◌⊎◌, inl, inr, true, false, List, [], ◌∷◌,
  ◌++◌, append-nil, append_assoc, arith, leb, if◌then◌else◌, leb→le, Bool-cases, length, take, drop,
  take-append-drop, length-drop, take_all, Bytes, nat_Eq, list_Eq, ok, err,
}
use deepin_network_proxy.Tproxy.Conn.{write_failed, write, read_failed, read, Conn}
use deepin_network_proxy.Tproxy.Conn.Reads.{stream}
use deepin_network_proxy.Tproxy.Relay.{Round, copy_round}

-- The reads that a stream can give, its end included.
abbrev pub reads_upto : List Bytes → ℕ
reads_upto [] = 1
reads_upto (chunk ∷ rest) = 1 + length chunk + reads_upto rest

List-cases {ℓ} : {A : Type ℓ} (xs : List A) → (xs ≡ []) ⊎ ((y : A) × (ys : List A) × (xs ≡ y ∷ ys))
List-cases [] = inl refl
List-cases (y ∷ ys) = inr (y, ys, refl)

-- The chunks behind a read of a first chunk.
abbrev next_chunks : ℕ → Bytes → List Bytes → List Bytes
next_chunks size chunk rest = if leb (length chunk) size then rest else drop size chunk ∷ rest

next_chunks-stream :
    (size : ℕ) (chunk : Bytes) (rest : List Bytes)
    → take size chunk ++ stream (next_chunks size chunk rest) ≡ chunk ++ stream rest
next_chunks-stream size chunk rest = elim (Bool-cases (leb (length chunk) size)) [
  | inl fits ↦ rw (fits, take_all size chunk (leb→le _ _ fits)) refl
  | inr longer ↦ rw longer (
      sym (append_assoc (take size chunk) (drop size chunk) (stream rest))
      ∙ ap (λ (c : Bytes). c ++ stream rest) (take-append-drop size chunk))
]

-- Each read leaves fewer to come.
next_chunks-fewer :
    (size : ℕ) (chunk : Bytes) (rest : List Bytes)
    → 0 < size
    → reads_upto (next_chunks size chunk rest) < reads_upto (chunk ∷ rest)
next_chunks-fewer size chunk rest pos = elim (Bool-cases (leb (length chunk) size)) [
  | inl fits ↦ rw fits (omega arith)
  | inr longer ↦ rw longer (ground (arith, length-drop size chunk))
]

pub one-le-reads_upto : (chunks : List Bytes) → 1 ≤ reads_upto chunks
one-le-reads_upto [] = omega arith
one-le-reads_upto (chunk ∷ rest) = omega arith

read_end : (size : ℕ) (c : Conn) → c.incoming ≡ [] → read size c ≡ (err read_failed, c)
unfolding read
read_end size c e = ground arith

read_chunk :
    (size : ℕ) (c : Conn) (chunk : Bytes) (rest : List Bytes)
    → c.incoming ≡ chunk ∷ rest
    → read size c ≡ (ok (take size chunk), record c { incoming = next_chunks size chunk rest })
unfolding read
read_chunk size c chunk rest e = rw (read, e) refl

stream-snoc :
    (chunks : List Bytes) (got : Bytes) → stream (chunks ++ got ∷ []) ≡ stream chunks ++ got
stream-snoc [] got = append-nil got
stream-snoc (c ∷ cs) got = ap (◌++◌ c) (stream-snoc cs got) ∙ sym (append_assoc c (stream cs) got)

write_none_left : (buf : Bytes) (c : Conn) → c.writes_left ≡ 0 → write buf c ≡ (err write_failed, c)
unfolding write
write_none_left buf c e = ground arith

write_left :
    (buf : Bytes) (c : Conn) (k : ℕ)
    → c.writes_left ≡ suc k
    → write buf c ≡ (ok tt, record c { sent = c.sent ++ buf ∷ []; writes_left = k })
unfolding write
write_left buf c k e = ground arith

ℕ-cases : (n : ℕ) → (n ≡ 0) ⊎ ((k : ℕ) × (n ≡ suc k))
ℕ-cases zero = inl refl
ℕ-cases (suc k) = inr (k, refl)

-- What a round does: `lost` is what was read and could not be written.
pub record Went (dst src : Conn) (r : Round) : Type 0 where
  pub lost : Bytes
  pub in_order :
      stream r.dst.sent ++ (lost ++ stream r.src.incoming) ≡ stream dst.sent ++ stream src.incoming
  pub src_sent : r.src.sent ≡ src.sent
  pub src_room : r.src.writes_left ≡ src.writes_left
  pub dst_coming : r.dst.incoming ≡ dst.incoming
  pub kept : r.goes_on ≡ true → lost ≡ []
  pub fewer : r.goes_on ≡ true → reads_upto r.src.incoming < reads_upto src.incoming
  pub room : r.goes_on ≡ true → dst.writes_left ≤ r.dst.writes_left + 1
  pub over :
      r.goes_on ≡ false → (dst.writes_left ≡ 0) ⊎ ((src.incoming ≡ []) × (r.dst.sent ≡ dst.sent))

pub copy_round-Went :
    (size : ℕ) (dst src : Conn) → 0 < size → Went dst src (copy_round size dst src)
unfolding copy_round
copy_round-Went size dst src pos = elim (List-cases src.incoming) [
  | inl e ↦
      rw (copy_round, read_end size src e)
        (record {
          lost = [];
          in_order = refl;
          src_sent = refl;
          src_room = refl;
          dst_coming = refl;
          kept = λ g. absurd (false≢true g);
          fewer = λ g. absurd (false≢true g);
          room = λ g. absurd (false≢true g);
          over = λ f. inr (e, refl);
        })
  | inr (chunk, rest, e) ↦
      let came : take size chunk ++ stream (next_chunks size chunk rest) ≡ stream src.incoming =
        next_chunks-stream size chunk rest ∙ sym (ap stream e) in
      let less : reads_upto (next_chunks size chunk rest) < reads_upto src.incoming =
        rw e (next_chunks-fewer size chunk rest pos) in
      elim (List-cases (take size chunk)) [
        | inl empty ↦
            rw (copy_round, read_chunk size src chunk rest e)
              (rw empty (record {
                lost = [];
                in_order = ap (◌++◌ (stream dst.sent)) (rw empty at came);
                src_sent = refl;
                src_room = refl;
                dst_coming = refl;
                kept = λ g. refl;
                fewer = λ g. less;
                room = λ g. omega arith;
                over = λ f. absurd (false≢true (sym f));
              }))
        | inr (first, more, got) ↦
            let came' : (first ∷ more) ++ stream (next_chunks size chunk rest)
                ≡ stream src.incoming =
              ap (λ (c : Bytes). c ++ stream (next_chunks size chunk rest)) (sym got) ∙ came in
            elim (ℕ-cases dst.writes_left) [
              | inl none_left ↦
                  rw (copy_round, read_chunk size src chunk rest e)
                    (rw got (
                      rw (write_none_left (first ∷ more) dst none_left) (record {
                        lost = first ∷ more;
                        in_order = ap (◌++◌ (stream dst.sent)) came';
                        src_sent = refl;
                        src_room = refl;
                        dst_coming = refl;
                        kept = λ g. absurd (false≢true g);
                        fewer = λ g. absurd (false≢true g);
                        room = λ g. absurd (false≢true g);
                        over = λ f. inl none_left;
                      })))
              | inr (k, left) ↦
                  rw (copy_round, read_chunk size src chunk rest e)
                    (rw got (
                      rw (write_left (first ∷ more) dst k left) (record {
                        lost = [];
                        in_order =
                            ap (λ (t : Bytes). t ++ stream (next_chunks size chunk rest))
                              (stream-snoc dst.sent (first ∷ more))
                            ∙ append_assoc (stream dst.sent) (first ∷ more)
                                (stream (next_chunks size chunk rest))
                            ∙ ap (◌++◌ (stream dst.sent)) came';
                        src_sent = refl;
                        src_room = refl;
                        dst_coming = refl;
                        kept = λ g. refl;
                        fewer = λ g. less;
                        room = λ g. omega (arith, left);
                        over = λ f. absurd (false≢true (sym f));
                      })))
            ]
      ]
]
