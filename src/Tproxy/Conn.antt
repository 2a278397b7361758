-- ===== src/Tproxy/Conn.antt =====
-- The connection to the proxy server, as the handlers of tproxy/ use it (`net.Conn`, `io.ReadFull`).
-- `incoming` holds the chunks that the peer's bytes arrive in: one `Read` takes from one chunk, so
-- how the bytes were split is part of the input. `writes_left` is how many `Write` calls succeed.
pub mod Reads
use deepin_network_proxy.Prelude.{
  ℕ, zero, suc, ◌+◌, ◌-◌, Bool, true, false, Option, none, some, List, [], ◌∷◌, ◌++◌, arith, leb,
  nat_eq, if◌then◌else◌, length, take, drop, Bytes, nat_Eq, list_Eq, Result, ok, err,
}

pub record Conn : Type 0 where
  pub incoming : List Bytes
  pub sent : List Bytes
  pub writes_left : ℕ

pub data TunnelError : Type 0 where
  dial_failed not_tcp write_failed read_failed : TunnelError
  bad_method bad_auth bad_reply bad_atyp ip_invalid domain_too_long : TunnelError
  resolve_failed dial_udp_failed bad_sock4 : TunnelError
  bad_status : ℕ → TunnelError

-- A step that talks to the server: its result or its error, and the connection afterwards.
abbrev pub Talk : Type 0 → Type 0
Talk A = Conn → Result TunnelError A × Conn

abbrev pub continue :
    {A B : Type 0} → Result TunnelError A → Conn → (A → Talk B) → Result TunnelError B × Conn
continue (ok a) c f = f a c
continue (err e) c f = (err e, c)

infixl 5 ◌>>=◌ ◌>>◌
abbrev pub ◌>>=◌ : {A B : Type 0} → Talk A → (A → Talk B) → Talk B
◌>>=◌ m f c = continue (m c).0 (m c).1 f

abbrev pub ◌>>◌ : {B : Type 0} → Talk (Unit {0}) → Talk B → Talk B
m >> k = m >>= λ _. k

abbrev pub pure : {A : Type 0} → A → Talk A
pure a c = (ok a, c)

abbrev pub fail : {A : Type 0} → TunnelError → Talk A
fail e c = (err e, c)

abbrev pub require : Bool → TunnelError → Talk (Unit {0})
require true e = pure tt
require false e = fail e

-- `conn.Write(buf)`.
unfoldable pub write : Bytes → Talk (Unit {0})
write buf c =
    if nat_eq c.writes_left 0
    then (err write_failed, c)
    else (ok tt, record c { sent = c.sent ++ buf ∷ []; writes_left = c.writes_left - 1 })

-- `conn.Read(buf)` where `buf` has length `n`: the bytes that arrived. At the end of the stream it fails.
unfoldable pub read : ℕ → Talk Bytes
read n c = elim c.incoming [
  | [] ↦ (err read_failed, c)
  | chunk ∷ rest ↦ (
    ok (take n chunk),
    record c { incoming = if leb (length chunk) n then rest else drop n chunk ∷ rest },
  )
]

-- The loop of `io.ReadFull` over the chunks.
unfoldable pub take_full : ℕ → List Bytes → Option (Bytes × List Bytes)
take_full n [] = if nat_eq n 0 then some ([], []) else none
take_full n (chunk ∷ rest) =
    let more = take_full (n - length chunk) rest in
    if leb n (length chunk)
    then some (take n chunk, drop n chunk ∷ rest)
    else elim more [ none ↦ none | some (got, left) ↦ some (chunk ++ got, left) ]

-- `io.ReadFull(conn, buf[0:n])`.
unfoldable pub read_full : ℕ → Talk Bytes
read_full n c = elim (take_full n c.incoming) [
  | none ↦ (err read_failed, record c { incoming = [] })
  | some (got, left) ↦ (ok got, record c { incoming = left })
]

-- What a buffer holds after a `Read` that filled its front.
abbrev pub filled : Bytes → Bytes → Bytes
filled got buf = got ++ drop (length got) buf

-- `buf[i]`, where the code has made the buffer longer than that.
abbrev pub byte_at : Bytes → ℕ → ℕ
byte_at [] i = 0
byte_at (x ∷ xs) zero = x
byte_at (x ∷ xs) (suc i) = byte_at xs i
