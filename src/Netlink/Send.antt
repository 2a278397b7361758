-- ===== src/Netlink/Send.antt =====
-- The message of netlink/netlink.go's sendMsg, read as the kernel reads it.
use deepin_network_proxy.Com.Endian.{field, field_at, from_le, to_le}
use deepin_network_proxy.Prelude.{
  ℕ, ◌^◌, ◌<◌, ◌≡◌, refl, ap₂, ◌∙◌, some, [], ◌∷◌, ◌++◌, arith, length, Bytes, nat_Eq, list_Eq,
}
use deepin_network_proxy.Netlink.Wire.{
  NetlinkMessage, CbId, cn_msg_of, read_cn_msg, parse_netlink_message, send_msg,
}
use deepin_network_proxy.Netlink.Fields.{parse_netlink_message-datagram, only, binary_read_front}

abbrev pub cn_part : CbId → Bytes
cn_part id =
    to_le 4 id.idx ++ (to_le 4 id.val ++ (to_le 4 1 ++ (to_le 4 0 ++ (to_le 2 4 ++ to_le 2 0))))

-- The message that `sendMsg` writes is one netlink message, and in it stand the identity of the
-- connector, the length of what follows, and the operation.
pub parse_netlink_message-send_msg :
    (id : CbId) (pid proto : ℕ)
    → id.idx < 256 ^ 4
    → id.val < 256 ^ 4
    → (m : NetlinkMessage) × (rest : Bytes) × (parse_netlink_message (send_msg id pid proto)
        ≡ some (m ∷ []))
      × (m.header.len ≡ length (send_msg id pid proto))
      × (read_cn_msg m.payload
          ≡ some (record { id = id; seq = 1; ack = 0; len = length rest; flag = 0 }, rest))
      × (rest ≡ to_le 4 proto)
unfolding send_msg to_le read_cn_msg cn_msg_of field from_le
parse_netlink_message-send_msg id pid proto small small' =
    let rest = to_le 2 3 ++ (to_le 2 0 ++ (to_le 4 1 ++ to_le 4 pid)) in
    let payload = cn_part id ++ to_le 4 proto in
    (
      only rest payload 40 refl refl refl (omega arith),
      to_le 4 proto,
      parse_netlink_message-datagram rest payload 40 refl refl refl (omega arith),
      refl,
      binary_read_front 20 cn_msg_of (cn_part id) (to_le 4 proto) refl
          ∙ ap₂
              (λ a b. some (
                record { id = record { idx = a; val = b }; seq = 1; ack = 0; len = 4; flag = 0 },
                to_le 4 proto,
              ))
              (field_at 0 4 id.idx []
                (to_le 4 id.val ++ (to_le 4 1 ++ (to_le 4 0 ++ (to_le 2 4 ++ to_le 2 0)))) refl
                small)
              (field_at 4 4 id.val (to_le 4 id.idx)
                (to_le 4 1 ++ (to_le 4 0 ++ (to_le 2 4 ++ to_le 2 0))) refl small'),
      refl,
    )
