-- ===== src/Tproxy/Handlers/Tests.antt =====
-- A handler that is added, and closed under a schedule.
use deepin_network_proxy.Define.{main}
use deepin_network_proxy.Tproxy.Handlers.{
  http, HandlerKey, HandlerMgr, close_base_handler, Side, remote_side, local_side, advance, step,
  communicate,
}
use deepin_network_proxy.Tproxy.Handlers.Communicate.{begun, communicate_closes_once}
use deepin_network_proxy.Prelude.{◌≡◌, refl, List, [], ◌∷◌, codes, nat_Eq, list_Eq}

abbrev browser : HandlerKey
browser = record { src_addr = codes "10.0.0.2:4000"; dst_addr = codes "10.0.0.9:443" }

abbrev mgr : HandlerMgr
mgr = record { handler_map = (http, (browser, 7) ∷ []) ∷ []; scope = main; closed = [] }

-- Both goroutines pass `isDeleted` before either sets the mark.
abbrev race : List Side
race = remote_side ∷ local_side ∷ remote_side ∷ local_side ∷ local_side ∷ remote_side ∷ []

communicate_closes_once_example :
    (communicate http browser (begun http browser mgr) race).mgr
    ≡ close_base_handler mgr http browser
unfolding communicate step advance
communicate_closes_once_example = communicate_closes_once http browser mgr race refl refl
