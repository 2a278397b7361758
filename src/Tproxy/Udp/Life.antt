-- ===== src/Tproxy/Udp/Life.antt =====
-- `Communicate` of tproxy/UdpSock5Handler.go: each of its two goroutines calls `Remove` when its copy has
-- come to an end. There is no mark between them, as the other handlers have.
use deepin_network_proxy.Prelude.{
  ℕ, ◌≡◌, refl, ap, ◌∙◌, Bool, true, false, none, some, List, [], ◌∷◌, ◌++◌, map, if◌then◌else◌,
  nat_Eq, list_Eq, ==_refl,
}
use deepin_network_proxy.Tproxy.Handlers.{
  socks5_udp, HandlerKey, proto_Eq, key_Eq, HandlerMgr, handler_at, add_handler, close_base_handler,
  Side, remote_side, local_side,
}
use deepin_network_proxy.Tproxy.Handlers.Close.{close_base_handler_lem, add_handler_lem}

-- The manager, and which of the two goroutines are still copying.
pub record UdpSession : Type 0 where
  pub mgr : HandlerMgr
  pub to_remote : Bool
  pub to_local : Bool

-- What happens: a goroutine comes to its end, or another connection enters a handler.
pub data UdpEvent : Type 0 where
  ends : Side → UdpEvent
  enters : HandlerKey → ℕ → UdpEvent

-- The end of one goroutine, which `copying` says is still there.
unfoldable pub end_copy : HandlerKey → Bool → HandlerMgr → HandlerMgr
end_copy key copying m = if copying then close_base_handler m socks5_udp key else m

unfoldable pub udp_step : HandlerKey → UdpSession → UdpEvent → UdpSession
udp_step key s (ends remote_side) = record s {
  mgr = end_copy key s.to_remote s.mgr;
  to_remote = false;
}
udp_step key s (ends local_side) = record s {
  mgr = end_copy key s.to_local s.mgr;
  to_local = false;
}
udp_step key s (enters other base) = record s { mgr = add_handler s.mgr socks5_udp other base }

unfoldable pub udp_communicate : HandlerKey → UdpSession → List UdpEvent → UdpSession
udp_communicate key s [] = s
udp_communicate key s (e ∷ es) = udp_communicate key (udp_step key s e) es

-- `Communicate` has just started both.
abbrev pub both_copying : HandlerMgr → UdpSession
both_copying m = record { mgr = m; to_remote = true; to_local = true }

abbrev pub other_side : Side → Side
other_side remote_side = local_side
other_side local_side = remote_side

abbrev Gone : HandlerKey → List ℕ → HandlerMgr → Type 0
Gone key closed m = (handler_at m socks5_udp key ≡ none) × (m.closed ≡ closed)

close_base_handler-Gone :
    (key : HandlerKey) (m : HandlerMgr) (closed : List ℕ)
    → Gone key closed m
    → Gone key closed (close_base_handler m socks5_udp key)
unfolding close_base_handler
close_base_handler-Gone key m closed (free, same) = rw (close_base_handler, free) (free, same)

close_base_handler_closes :
    (key : HandlerKey) (m : HandlerMgr) (base : ℕ)
    → handler_at m socks5_udp key ≡ some base
    → Gone key (m.closed ++ base ∷ []) (close_base_handler m socks5_udp key)
close_base_handler_closes key m base there =
    let (gone, closed) = close_base_handler_lem m socks5_udp socks5_udp key key in
    (gone ∙ rw (==_refl key) refl, closed ∙ rw there refl)

end_copy-Gone :
    (key : HandlerKey) (copying : Bool) (m : HandlerMgr) (closed : List ℕ)
    → Gone key closed m
    → Gone key closed (end_copy key copying m)
unfolding end_copy
end_copy-Gone key true m closed g = close_base_handler-Gone key m closed g
end_copy-Gone key false m closed g = g

-- Schedules of the two goroutines only.
abbrev pub only_ends : List Side → List UdpEvent
only_ends = map ends

ends-Gone :
    (key : HandlerKey) (closed : List ℕ) (sides : List Side) (s : UdpSession)
    → Gone key closed s.mgr
    → Gone key closed (udp_communicate key s (only_ends sides)).mgr
unfolding udp_communicate udp_step
ends-Gone key closed [] s g = g
ends-Gone key closed (remote_side ∷ sides) s g =
    ends-Gone key closed sides _ (end_copy-Gone key s.to_remote s.mgr closed g)
ends-Gone key closed (local_side ∷ sides) s g =
    ends-Gone key closed sides _ (end_copy-Gone key s.to_local s.mgr closed g)

-- Where no other connection enters a handler, the first end of a goroutine takes the handler out and
-- closes it, and nothing that the two do afterwards closes it again.
pub udp_communicate_closes :
    (key : HandlerKey) (m : HandlerMgr) (base : ℕ) (first : Side) (sides : List Side)
    → handler_at m socks5_udp key ≡ some base
    → let s = udp_communicate key (both_copying m) (only_ends (first ∷ sides)) in
      (handler_at s.mgr socks5_udp key ≡ none) × (s.mgr.closed ≡ m.closed ++ base ∷ [])
unfolding udp_communicate udp_step end_copy
udp_communicate_closes key m base remote_side sides there =
    ends-Gone key (m.closed ++ base ∷ []) sides _ (close_base_handler_closes key m base there)
udp_communicate_closes key m base local_side sides there =
    ends-Gone key (m.closed ++ base ∷ []) sides _ (close_base_handler_closes key m base there)

enters_there :
    (key : HandlerKey) (m : HandlerMgr) (other : ℕ) (closed : List ℕ)
    → Gone key closed m
    → (handler_at (add_handler m socks5_udp key other) socks5_udp key ≡ some other)
      × ((add_handler m socks5_udp key other).closed ≡ closed)
enters_there key m other closed (free, same) =
    let (there, kept) = add_handler_lem m socks5_udp socks5_udp key key other in
    (there ∙ rw (==_refl key, free) refl, kept ∙ same)

closes_another :
    (key : HandlerKey) (m : HandlerMgr) (base other : ℕ)
    → handler_at m socks5_udp key ≡ some base
    → Gone key ((m.closed ++ base ∷ []) ++ other ∷ []) (
        close_base_handler
          (add_handler (close_base_handler m socks5_udp key) socks5_udp key other)
          socks5_udp
          key)
closes_another key m base other there =
    let (entered, kept) =
      enters_there key (close_base_handler m socks5_udp key) other (m.closed ++ base ∷ [])
        (close_base_handler_closes key m base there) in
    let (gone, closed) = close_base_handler_closes key _ other entered in
    (gone, closed ∙ ap (λ (c : List ℕ). c ++ other ∷ []) kept)

-- A connection that enters a handler under the same key between the ends of the two goroutines loses
-- it: the second end closes the new handler.
pub late_end_closes_another :
    (key : HandlerKey) (m : HandlerMgr) (base other : ℕ) (first : Side)
    → handler_at m socks5_udp key ≡ some base
    → let s =
        udp_communicate key
          (both_copying m)
          (ends first ∷ enters key other ∷ ends (other_side first) ∷ []) in
      (handler_at s.mgr socks5_udp key ≡ none)
      × (s.mgr.closed ≡ (m.closed ++ base ∷ []) ++ other ∷ [])
unfolding udp_communicate udp_step end_copy
late_end_closes_another key m base other remote_side there = closes_another key m base other there
late_end_closes_another key m base other local_side there = closes_another key m base other there
