-- ===== src/Tproxy/Relay/Delivery.antt =====
-- What the two goroutines of a handler bring to the remote side.
use deepin_network_proxy.Prelude.{
  ℕ, ◌+◌, ◌≡◌, ◌⊎◌, false, List, [], ◌∷◌, ◌++◌, Bytes, nat_Eq, list_Eq,
}
use deepin_network_proxy.Tproxy.Conn.Reads.{stream}
use deepin_network_proxy.Tproxy.Handlers.{ProtoTyp, HandlerKey, Side, remote_side, local_side}
use deepin_network_proxy.Tproxy.Relay.{Carrying, is_copying}

module _ (typ : ProtoTyp) (key : HandlerKey) where
  -- What is sent to the remote side is a part from the front of what there is to send.
  abbrev pub Front : Carrying → Carrying → Type 0
  Front s t =
      (left : Bytes) × (stream t.r_conn.sent ++ left
        ≡ stream s.r_conn.sent ++ stream s.l_conn.incoming)

  -- Either all has been sent to the remote side, or the copy to the local side has ended.
  abbrev pub Delivers : Carrying → Carrying → Type 0
  Delivers s t =
      (stream t.r_conn.sent ≡ stream s.r_conn.sent ++ stream s.l_conn.incoming)
      ⊎ (is_copying t.session.to_local ≡ false)

  -- The steps of the goroutine that copies to the remote side.
  abbrev pub remote_steps : List Side → ℕ
  remote_steps [] = 0
  remote_steps (remote_side ∷ sides) = 1 + remote_steps sides
  remote_steps (local_side ∷ sides) = remote_steps sides
