-- ===== src/Dbus/Tests.antt =====
-- The DNS proxy with caches that never push an entry out.
use deepin_network_proxy.Com.Address.{to4, tcp_addr}
use deepin_network_proxy.Define.{app}
use deepin_network_proxy.Tproxy.Handlers.{
  socks5_tcp, key_Eq, HandlerMgr, new_handler_mgr, add_handler, close_base_handler,
  close_typ_handler,
}
use deepin_network_proxy.Dbus.Capture
use deepin_network_proxy.Dbus.Capture.{
  Captured, Event, arrives, answers, fails, removes, key_of, Hall, proxy_tcp, answered, real_addr,
  has_handler,
}
use deepin_network_proxy.Dbus.Capture.Counts.{count}
use deepin_network_proxy.Dbus.Capture.Ends.{arrived, run_closes_once}
use deepin_network_proxy.Dbus.FakeIp.{new, FakeIp, ip_to_uint, nth_new}
use deepin_network_proxy.Dbus.FakeIp.Pool.{nth_new_in_pool}
use deepin_network_proxy.Dbus.Dns.{Query}
use deepin_network_proxy.Dbus.Lru.{Lru, Key, domain_key, number_key}
use deepin_network_proxy.Dbus.Dns.{Dns, trim_dots, get_by_ip, cache_max_size}
use deepin_network_proxy.Dbus.Dns.Owners.{handed}
use deepin_network_proxy.Dbus.Dns.History.{step, run}
use deepin_network_proxy.Prelude.{
  List, lookup, insert, delete, ℕ, ◌≤◌, ◌≡◌, refl, ap, ◌↔◌, inl, inr, Bool, true, false, Option,
  none, some, [], ◌∷◌, arith, nat_eq, if◌then◌else◌, nat_eq_iff, nat_eq_refl, Bool-cases, Bytes,
  codes, nat_Eq, list_Eq, ◌==◌, list_eq_iff, ==_refl,
}

same_key : Key → Key → Bool
same_key (domain_key d) (domain_key e) = d == e
same_key (number_key m) (number_key n) = nat_eq m n
same_key _ _ = false

same_key_refl : (k : Key) → same_key k k ≡ true
unfolding same_key
same_key_refl (domain_key d) = ==_refl d
same_key_refl (number_key n) = nat_eq_refl n

same_key-true : (k j : Key) → same_key k j ≡ true → k ≡ j
unfolding same_key
same_key-true (domain_key d) (domain_key e) h = ap domain_key ((list_eq_iff d e).0 h)
same_key-true (domain_key d) (number_key n) h = ground arith
same_key-true (number_key m) (domain_key e) h = ground arith
same_key-true (number_key m) (number_key n) h = ap number_key ((nat_eq_iff m n).0 h)

abbrev unbounded : (V : Type 0) → Lru V
unbounded V = record {
  Cache = Key → Option V;
  new = λ size k. none;
  add = λ k v c j. if same_key k j then some v else c j;
  get = λ k c. (c k, c);
  content = λ c k. c k;
  new_empty = λ size k. refl;
  get_value = λ k c. refl;
  get_keeps = λ k j c. refl;
  add_self = λ k v c. rw (same_key_refl k) refl;
  add_other = λ k j v c h. elim (Bool-cases (same_key k j)) [
    | inl same ↦ absurd (h (same_key-true k j same))
    | inr other ↦ inr (rw other refl)
  ];
}

abbrev pool : FakeIp
pool = record { start = 0xc0a8_8700; end = 0xc0a8_87ff; index = 0 }

nth_new_in_pool_example :
    (v : ℕ) × (ip_to_uint (nth_new 256 pool) ≡ some v)
    × (((pool.start ≤ v) × (v ≤ pool.end)) ↔ (256 ≤ 255))
nth_new_in_pool_example = nth_new_in_pool pool 256 refl (omega arith) (omega arith) (omega arith)

abbrev D : Lru ℕ
D = unbounded ℕ

abbrev I : Lru Bytes
I = unbounded Bytes

abbrev start : Dns D I
start = record { f_ip = pool; domain_cache = D.new cache_max_size; ip_cache = I.new cache_max_size }

abbrev example_org : Bytes
example_org = codes "example.org."

abbrev asked : Dns D I
asked = handed D I start (trim_dots example_org)

abbrev asked_again : Dns D I
asked_again = handed D I asked (trim_dots (codes "debian.org"))

abbrev page : Captured
page = record {
  l_addr = codes "10.0.0.2:40000";
  r_text = codes "93.184.215.14:80";
  r_addr = tcp_addr (93 ∷ 184 ∷ 215 ∷ 14 ∷ []) 80;
  base = 7;
}

abbrev page_events : List Event
page_events = arrives page ∷ answers 0 true ∷ fails ∷ removes (key_of page) ∷ []

abbrev page_end : Hall D I
page_end = record {
  dns = start;
  mgr = record { handler_map = []; scope = app; closed = 7 ∷ [] };
  waiting = [];
  accepting = false;
}

run_closes_once_example : count 7 page_end.mgr.closed ≤ arrived D I socks5_tcp 7 page_events
unfolding Capture.run Capture.step proxy_tcp answered real_addr has_handler get_by_ip ip_to_uint to4
    new_handler_mgr add_handler close_base_handler close_typ_handler lookup insert delete
run_closes_once_example = run_closes_once D I socks5_tcp app start 7 page_events {h = page_end} refl

abbrev nobody : HandlerMgr
nobody = record { handler_map = []; scope = app; closed = [] }

abbrev pair_of : Bytes → Bytes → Option (Bytes × Bytes)
pair_of name ip = some (name, ip)

-- Two names are asked for, and an IPv6 address in between: `SetReply` takes over the first question.
abbrev message : Query
message = record {
  opcode = 0;
  questions =
      record { name = example_org; qtype = 1 }
      ∷ record { name = example_org; qtype = 28 }
      ∷ record { name = codes "debian.org."; qtype = 1 }
      ∷ [];
}
