-- ===== src/Netlink/Fields.antt =====
-- The fields of the messages of netlink/define.go, written and read.
use deepin_network_proxy.Prelude.{
  ℕ, ◌+◌, ◌-◌, ◌%◌, ◌^◌, ◌<◌, ◌≡◌, refl, sym, ap, ap₂, ◌∙◌, false, ◌||◌, some, [], ◌∷◌, ◌++◌, arith,
  ltb, length, take, drop, length-append, take_all, drop-length, Bytes, nat_Eq, list_Eq,
}
use deepin_network_proxy.Com.Endian.{to_le, field, take_front, drop_front, field_at}
use deepin_network_proxy.Netlink.Wire.{
  binary_read, NetlinkMessage, nlm_align_of, first_message, messages, parse_netlink_message,
}

-- A message that fills the buffer: its length, twelve more bytes of the header, and what it carries.
module _ (rest payload : Bytes) (total : ℕ) (short : length rest ≡ 12)
    (whole : total ≡ 16 + length payload) (even : total % 4 ≡ 0) (small : total < 256 ^ 4) where
  abbrev pub datagram : Bytes
  datagram = to_le 4 total ++ (rest ++ payload)

  abbrev pub only : NetlinkMessage
  only = record {
    header = record {
      len = field 0 4 datagram;
      typ = field 4 2 datagram;
      flags = field 6 2 datagram;
      seq = field 8 4 datagram;
      pid = field 12 4 datagram;
    };
    payload = payload;
  }

  length-datagram : length datagram ≡ total
  unfolding to_le
  length-datagram = omega (arith, length-append rest payload)

  first_message-datagram : first_message datagram ≡ some (only, [])
  unfolding first_message to_le
  first_message-datagram =
      let len : field 0 4 datagram ≡ total = field_at 0 4 total [] (rest ++ payload) refl small in
      let aligned : nlm_align_of total ≡ total = omega arith in
      let large : (ltb (field 0 4 datagram) 16
            || ltb (length datagram) (nlm_align_of (field 0 4 datagram)))
          ≡ false =
        rw len (ground (arith, length-datagram)) in
      let front : length (to_le 4 total ++ rest) ≡ 16 = omega arith in
      let body : take (field 0 4 datagram - 16) (drop 16 datagram) ≡ payload =
        ap (take (field 0 4 datagram - 16)) (drop_front 16 (to_le 4 total ++ rest) payload front)
        ∙ take_all (field 0 4 datagram - 16) payload (omega (arith, len)) in
      let end : drop (nlm_align_of (field 0 4 datagram)) datagram ≡ [] =
        ap (λ (n : ℕ). drop n datagram) (ap nlm_align_of len ∙ aligned ∙ sym length-datagram)
        ∙ drop-length datagram in
      rw (first_message, large) (ap₂ (λ p r. some (record only { payload = p }, r)) body end)

  -- It is the only one that `ParseNetlinkMessage` finds.
  pub parse_netlink_message-datagram : parse_netlink_message datagram ≡ some (only ∷ [])
  unfolding parse_netlink_message messages to_le
  parse_netlink_message-datagram =
      let long : ltb (length datagram) 16 ≡ false = ground (arith, length-datagram) in
      rw (messages, long) (rw first_message-datagram refl)

-- A structure of so many bytes in front of others.
pub binary_read_front :
    {A : Type 0} (size : ℕ) (layout : Bytes → A) (a b : Bytes)
    → length a ≡ size
    → binary_read size layout (a ++ b) ≡ some (layout a, b)
binary_read_front size layout a b e =
    let wide : ltb (length (a ++ b)) size ≡ false = ground (arith, length-append a b) in
    rw wide (ap₂ (λ x y. some (layout x, y)) (take_front size a b e) (drop_front size a b e))
