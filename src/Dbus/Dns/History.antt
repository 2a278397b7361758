-- ===== src/Dbus/Dns/History.antt =====
-- Sequences of calls on the DNS proxy, by any of its clients.
use deepin_network_proxy.Dbus.FakeIp.{FakeIp, u32, ip_to_uint, uint_to_ip}
use deepin_network_proxy.Dbus.FakeIp.Range.{ip_to_uint-uint_to_ip}
use deepin_network_proxy.Com.Address.{to4}
use deepin_network_proxy.Dbus.FakeIp.{new_fake_ip, prefix_to_mask}
use deepin_network_proxy.Dbus.Lru.{Lru, domain_key, number_key}
use deepin_network_proxy.Dbus.Dns.{
  Dns, trim_dots, get_by_ip, resolve_domain, new_proxy_dns, ◌>>?◌, cache_max_size,
}
use deepin_network_proxy.Dbus.Dns.Owners.{
  none_some, none_some, get_by_ip_panics, Owns, Inv, Same, Same-Owns, Same-Inv, get_by_ip_lem,
  Resolved, hit, miss, resolve_domain-Resolved, next_number, handed_keeps, handed-Owns, handed-Inv,
}
use deepin_network_proxy.Prelude.{
  ℕ, ◌+◌, ◌≤◌, ◌<◌, ◌≡◌, refl, sym, ap, subst, ◌∙◌, ◌⊎◌, inl, inr, Option, none, some, List, [],
  ◌∷◌, arith, Option-cases, length, Bytes, nat_Eq, list_Eq, some_inj,
}

-- A call: a query for a domain, or the search for the domain of a connection's address.
pub data Call : Type 0 where
  resolves : Bytes → Call
  finds : Bytes → Call

module _ (D : Lru ℕ) (I : Lru Bytes) where
  unfoldable pub step : Dns D I → Call → Option (Dns D I)
  step s (resolves name) = resolve_domain D I s name >>? λ (ip, t). some t
  step s (finds ip) = get_by_ip D I s ip >>? λ (found, t). some t

  unfoldable pub run : Dns D I → List Call → Option (Dns D I)
  run s [] = some s
  run s (c ∷ cs) = step s c >>? λ t. run t cs

  -- What a call keeps while the pool's counter does not wrap.
  pub record Keeps (s t : Dns D I) : Type 0 where
    pub inv : Inv D I t
    pub owners : (d : Bytes) (v : ℕ) → Owns D I s d v → Owns D I t d v
    pub count : t.f_ip.index ≤ s.f_ip.index + 1

  Same-Keeps : {s t : Dns D I} → Same D I s t → Inv D I s → Keeps s t
  Same-Keeps {s} e i = record {
    inv = Same-Inv D I e i;
    owners = Same-Owns D I e;
    count = omega (arith, ap (λ (f : FakeIp). f.index) e.pool);
  }

  pub Resolved-Keeps :
      {s t : Dns D I} {d ip : Bytes}
      → s.f_ip.index + 1 < u32
      → Inv D I s
      → Resolved D I s d ip t
      → Keeps s t
  Resolved-Keeps more i (hit v e same) = Same-Keeps same i
  Resolved-Keeps {s} {t} {d} more i (miss {r} e same made) = rw made (record {
    inv = handed-Inv D I r d more_r (Same-Inv D I same i);
    owners = λ x v o. handed_keeps D I r d more_r x v (Same-Owns D I same x v o);
    count = omega (arith, index_same);
  })
    where
      index_same : r.f_ip.index ≡ s.f_ip.index
      index_same = ap (λ (f : FakeIp). f.index) same.pool

      more_r : r.f_ip.index + 1 < u32
      more_r = omega (arith, index_same)

  pub Resolved-Owns :
      {s t : Dns D I} {d ip : Bytes}
      → s.f_ip.index + 1 < u32
      → Inv D I s
      → Resolved D I s d ip t
      → (v : ℕ) × (ip ≡ uint_to_ip v) × (v < u32) × Owns D I t d v
  Resolved-Owns more i (hit v e same) =
      let o = i.owned _ v e in (v, refl, omega (arith, o.number), Same-Owns D I same _ v o)
  Resolved-Owns {s} {t} {d} more i (miss {r} e same made) = (
    next_number D I r,
    refl,
    omega arith,
    rw made (handed-Owns D I r d (omega (arith, ap (λ (f : FakeIp). f.index) same.pool))),
  )

  step-Keeps :
      (s : Dns D I) (c : Call) {t : Dns D I}
      → s.f_ip.index + 1 < u32
      → Inv D I s
      → step s c ≡ some t
      → Keeps s t
  unfolding step
  step-Keeps s (resolves name) more i h =
      let (ip, u, e, r) = resolve_domain-Resolved D I s name in
      let made : step s (resolves name) ≡ some u = rw e refl in
      subst (λ x. Keeps s x) (some_inj (sym made ∙ h)) (Resolved-Keeps more i r)
  step-Keeps s (finds ip) {t} more i h = elim (Option-cases (ip_to_uint ip)) [
    | inl e ↦
        let gone : step s (finds ip) ≡ none = rw (get_by_ip_panics D I s ip e) refl in
        absurd (none_some D I (sym gone ∙ h))
    | inr (v, e) ↦
        let (u, k, same) = get_by_ip_lem D I s ip v e in
        let made : step s (finds ip) ≡ some u = rw k refl in
        subst (λ x. Keeps s x) (some_inj (sym made ∙ h)) (Same-Keeps same i)
  ]

  pub run-Owns :
      (cs : List Call) (s : Dns D I) {t : Dns D I} (d : Bytes) (v : ℕ)
      → s.f_ip.index + length cs < u32
      → Inv D I s
      → Owns D I s d v
      → run s cs ≡ some t
      → Owns D I t d v
  unfolding run
  run-Owns [] s d v more i o h = subst (λ x. Owns D I x d v) (some_inj h) o
  run-Owns (c ∷ cs) s d v more i o h = elim (Option-cases (step s c)) [
    | inl e ↦ absurd (none_some D I (rw e at h))
    | inr (u, e) ↦
        let k = step-Keeps s c (omega arith) i e in
        run-Owns cs u d v (omega (arith, k.count)) k.inv (k.owners d v o) (rw e at h)
  ]

  -- The DNS proxy starts with empty caches, so nothing has an owner yet.
  pub new_proxy_dns-Inv : {s : Dns D I} → new_proxy_dns D I ≡ some s → Inv D I s
  unfolding new_proxy_dns new_fake_ip ip_to_uint prefix_to_mask to4
  new_proxy_dns-Inv h = subst (Inv D I) (some_inj (sym made ∙ h)) (record {
    owned = λ d v e. absurd (none_some D I (sym (D.new_empty cache_max_size (domain_key d)) ∙ e));
  })
    where
      made :
          new_proxy_dns D I
          ≡ some (record {
            f_ip = record { start = 0xc0a8_8700; end = 0xc0a8_87ff; index = 0 };
            domain_cache = D.new cache_max_size;
            ip_cache = I.new cache_max_size;
          })
      made = refl

  -- When `resolveDomain` has given an address for a domain, a connection to that address is later
  -- proxied to that domain (its dots at the end taken off), or to the bare address where the entry
  -- was pushed out, but never to another domain: whatever calls came between, as long as the pool's
  -- 32 bit counter has not wrapped.
  pub get_by_ip-run-resolve_domain :
      {s t u : Dns D I} {ip : Bytes} (name : Bytes) (cs : List Call)
      → Inv D I s
      → s.f_ip.index + 1 + length cs < u32
      → resolve_domain D I s name ≡ some (ip, t)
      → run t cs ≡ some u
      → (found : Option Bytes) × (w : Dns D I) × (get_by_ip D I u ip ≡ some (found, w))
        × ((found ≡ none) ⊎ (found ≡ some (trim_dots name)))
  get_by_ip-run-resolve_domain {s} {t} {u} {ip} name cs i more e h =
      let (ip', t', e', r) = resolve_domain-Resolved D I s name in
      let same = some_inj (sym e' ∙ e) in
      let (v, at, small, o) = Resolved-Owns (omega arith) i r in
      let k = Resolved-Keeps (omega arith) i r in
      let o' =
        run-Owns cs t' (trim_dots name) v (omega (arith, k.count)) k.inv o
          (ap (λ p. run p.1 cs) same ∙ h) in
      let (w, g, _) =
        get_by_ip_lem D I u ip v (
          ap (λ p. ip_to_uint p.0) (sym same) ∙ ap ip_to_uint at ∙ ip_to_uint-uint_to_ip v small) in
      (I.content u.ip_cache (number_key v), w, g, o'.owner)

  -- A domain that is not in the cache gets an address that leads back to it at once.
  pub get_by_ip-resolve_domain :
      (s : Dns D I) (name : Bytes)
      → D.content s.domain_cache (domain_key (trim_dots name)) ≡ none
      → (ip : Bytes) × (t u : Dns D I) × (resolve_domain D I s name ≡ some (ip, t))
        × (get_by_ip D I t ip ≡ some (some (trim_dots name), u))
  get_by_ip-resolve_domain s name new_one = back (resolve_domain-Resolved D I s name)
    where
      back :
          ((ip : Bytes) × (t : Dns D I) × (resolve_domain D I s name ≡ some (ip, t))
            × Resolved D I s (trim_dots name) ip t)
          → (ip : Bytes) × (t u : Dns D I) × (resolve_domain D I s name ≡ some (ip, t))
            × (get_by_ip D I t ip ≡ some (some (trim_dots name), u))
      back (ip, t, e, hit v h same) = absurd (none_some D I (sym new_one ∙ h))
      back (ip, t, e, miss {r} h same made) =
          let n = next_number D I r in
          let (u, g, _) =
            get_by_ip_lem D I t (uint_to_ip n) n (ip_to_uint-uint_to_ip n (omega arith)) in
          let owner : I.content t.ip_cache (number_key n) ≡ some (trim_dots name) =
            rw made (I.add_self (number_key n) (trim_dots name) r.ip_cache) in
          (uint_to_ip n, t, u, e, g ∙ ap (λ o. some (o, u)) owner)

  -- Asking for a domain twice gives one address, and takes one address from the pool at most.
  pub resolve_domain_twice :
      (s : Dns D I) (name : Bytes)
      → (ip : Bytes) × (t u : Dns D I) × (resolve_domain D I s name ≡ some (ip, t))
        × (resolve_domain D I t name ≡ some (ip, u))
        × (u.f_ip ≡ t.f_ip)
  resolve_domain_twice s name = once (resolve_domain-Resolved D I s name)
    where
      again :
          (t : Dns D I) (v : ℕ)
          → D.content t.domain_cache (domain_key (trim_dots name)) ≡ some v
          → (u : Dns D I) × (resolve_domain D I t name ≡ some (uint_to_ip v, u)) × (u.f_ip ≡ t.f_ip)
      again t v h = cached (resolve_domain-Resolved D I t name)
        where
          cached :
              ((ip : Bytes) × (u : Dns D I) × (resolve_domain D I t name ≡ some (ip, u))
                × Resolved D I t (trim_dots name) ip u)
              → (u : Dns D I) × (resolve_domain D I t name ≡ some (uint_to_ip v, u))
                × (u.f_ip ≡ t.f_ip)
          cached (ip, u, e, hit w k same) =
              (u, e ∙ ap (λ x. some (uint_to_ip x, u)) (some_inj (sym k ∙ h)), same.pool)
          cached (ip, u, e, miss k same made) = absurd (none_some D I (sym k ∙ h))

      once :
          ((ip : Bytes) × (t : Dns D I) × (resolve_domain D I s name ≡ some (ip, t))
            × Resolved D I s (trim_dots name) ip t)
          → (ip : Bytes) × (t u : Dns D I) × (resolve_domain D I s name ≡ some (ip, t))
            × (resolve_domain D I t name ≡ some (ip, u))
            × (u.f_ip ≡ t.f_ip)
      once (ip, t, e, hit v k same) =
          let (u, g, p) = again t v (same.domains (domain_key (trim_dots name)) ∙ k) in
          (uint_to_ip v, t, u, e, g, p)
      once (ip, t, e, miss {r} k same made) =
          let n = next_number D I r in
          let held : D.content t.domain_cache (domain_key (trim_dots name)) ≡ some n =
            rw made (D.add_self (domain_key (trim_dots name)) n r.domain_cache) in
          let (u, g, p) = again t n held in (uint_to_ip n, t, u, e, g, p)
