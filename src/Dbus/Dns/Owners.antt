-- ===== src/Dbus/Dns/Owners.antt =====
-- Which domain a made-up address belongs to.
use deepin_network_proxy.Dbus.FakeIp.{u32, ip_to_uint, uint_to_ip, new}
use deepin_network_proxy.Dbus.FakeIp.Range.{ip_to_uint-uint_to_ip}
use deepin_network_proxy.Dbus.Lru.{Lru, Key, domain_key, number_key}
use deepin_network_proxy.Dbus.Dns.{
  Dns, trim_dots, cache_add, get_by_domain, get_by_ip, resolve_missing, resolve_domain,
}
use deepin_network_proxy.Prelude.{
  ℕ, ◌+◌, ◌%◌, ◌<◌, ◌≡◌, refl, sym, subst, ◌∙◌, ◌≢◌, ◌⊎◌, inl, inr, true, false, Option, none, some,
  arith, Option-cases, Bytes, nat_Eq, list_Eq, ◌==◌, ==-cases, some_inj,
}

module _ (D : Lru ℕ) (I : Lru Bytes) where
  -- The address with number `v` was handed out for `d`, and no other domain has it now.
  pub record Owns (s : Dns D I) (d : Bytes) (v : ℕ) : Type 0 where
    pub turn : ℕ
    pub taken : turn < s.f_ip.index
    pub number : v ≡ (s.f_ip.start + turn) % u32
    pub owner :
        (I.content s.ip_cache (number_key v) ≡ none)
        ⊎ (I.content s.ip_cache (number_key v) ≡ some d)

  pub record Inv (s : Dns D I) : Type 0 where
    pub owned : (d : Bytes) (v : ℕ) → D.content s.domain_cache (domain_key d) ≡ some v → Owns s d v

  -- Nothing that the caches hold, nor the pool, is different.
  pub record Same (s t : Dns D I) : Type 0 where
    pub pool : t.f_ip ≡ s.f_ip
    pub domains : (k : Key) → D.content t.domain_cache k ≡ D.content s.domain_cache k
    pub numbers : (k : Key) → I.content t.ip_cache k ≡ I.content s.ip_cache k

  pub Same-Owns : {s t : Dns D I} → Same s t → (d : Bytes) (v : ℕ) → Owns s d v → Owns t d v
  Same-Owns {s} {t} e d v o = record {
    turn = o.turn;
    taken = rw e.pool o.taken;
    number = rw e.pool o.number;
    owner = rw (e.numbers (number_key v)) o.owner;
  }

  pub Same-Inv : {s t : Dns D I} → Same s t → Inv s → Inv t
  Same-Inv e i = record {
    owned = λ d v h. Same-Owns e d v (i.owned d v (sym (e.domains (domain_key d)) ∙ h));
  }

  get_by_domain-Same : (s : Dns D I) (d : Bytes) → Same s (get_by_domain D I s d).1
  unfolding get_by_domain
  get_by_domain-Same s d = elim (Option-cases (D.get (domain_key d) s.domain_cache).0) [
    | inl e ↦
        rw (e, get_by_domain)
          (record {
            pool = refl;
            domains = λ k. D.get_keeps (domain_key d) k s.domain_cache;
            numbers = λ k. refl;
          })
    | inr (v, e) ↦
        rw (e, get_by_domain)
          (record {
            pool = refl;
            domains = λ k.
                D.get_keeps (number_key v) k (D.get (domain_key d) s.domain_cache).1
                ∙ D.get_keeps (domain_key d) k s.domain_cache;
            numbers = λ k. refl;
          })
  ]

  get_by_domain_value :
      (s : Dns D I) (d : Bytes)
      → (get_by_domain D I s d).0 ≡ (elim (D.content s.domain_cache (domain_key d)) [
        | none ↦ none
        | some v ↦ some (uint_to_ip v)
      ])
  unfolding get_by_domain
  get_by_domain_value s d =
      rw (← D.get_value (domain_key d) s.domain_cache)
        (elim (Option-cases (D.get (domain_key d) s.domain_cache).0) [
          | inl e ↦ rw (e, get_by_domain)
          | inr (v, e) ↦ rw (e, get_by_domain)
        ])

  pub get_by_ip_lem :
      (s : Dns D I) (ip : Bytes) (v : ℕ)
      → ip_to_uint ip ≡ some v
      → (t : Dns D I) × (get_by_ip D I s ip ≡ some (I.content s.ip_cache (number_key v), t))
        × Same s t
  unfolding get_by_ip
  get_by_ip_lem s ip v h =
      rw (← I.get_value (number_key v) s.ip_cache)
        (elim (Option-cases (I.get (number_key v) s.ip_cache).0) [
          | inl e ↦ (
            record s { ip_cache = (I.get (number_key v) s.ip_cache).1 },
            rw (h, get_by_ip) (rw (e, get_by_ip)),
            record {
              pool = refl;
              domains = λ k. refl;
              numbers = λ k. I.get_keeps (number_key v) k s.ip_cache;
            },
          )
          | inr (d, e) ↦ (
            record s {
              ip_cache = (I.get (number_key v) s.ip_cache).1;
              domain_cache = (D.get (domain_key d) s.domain_cache).1;
            },
            rw (h, get_by_ip) (rw (e, get_by_ip)),
            record {
              pool = refl;
              domains = λ k. D.get_keeps (domain_key d) k s.domain_cache;
              numbers = λ k. I.get_keeps (number_key v) k s.ip_cache;
            },
          )
        ])

  pub none_some {ℓ} : {A : Type ℓ} {v : A} → ◌≢◌ {A = Option A} none (some v)
  none_some h = cc

  pub get_by_ip_panics :
      (s : Dns D I) (ip : Bytes) → ip_to_uint ip ≡ none → get_by_ip D I s ip ≡ none
  unfolding get_by_ip
  get_by_ip_panics s ip h = rw (h, get_by_ip)

  -- The number of the next address.
  abbrev pub next_number : Dns D I → ℕ
  next_number s = (s.f_ip.start + s.f_ip.index) % u32

  -- The state after a new address was handed out for `d`.
  abbrev pub handed : Dns D I → Bytes → Dns D I
  handed s d = record {
    f_ip = record s.f_ip { index = (s.f_ip.index + 1) % u32 };
    domain_cache = D.add (domain_key d) (next_number s) s.domain_cache;
    ip_cache = I.add (number_key (next_number s)) d s.ip_cache;
  }

  resolve_missing_lem :
      (s : Dns D I) (d : Bytes)
      → resolve_missing D I s d ≡ some (uint_to_ip (next_number s), handed s d)
  unfolding resolve_missing cache_add new
  resolve_missing_lem s d = rw (ip_to_uint-uint_to_ip (next_number s) (omega arith))

  module _ (s : Dns D I) (d : Bytes) (more : s.f_ip.index + 1 < u32) where
    pub handed_keeps : (e : Bytes) (v : ℕ) → Owns s e v → Owns (handed s d) e v
    handed_keeps e v o = record {
      turn = o.turn;
      taken = omega (arith, o.taken);
      number = o.number;
      owner = kept (
          I.add_other (number_key (next_number s)) (number_key v) d s.ip_cache
            (λ p. other (number_key_inj p)));
    }
      where
        number_key_inj : number_key (next_number s) ≡ number_key v → next_number s ≡ v
        number_key_inj p = cc

        other : next_number s ≢ v
        other p = omega (arith, o.taken, o.number)

        kept :
            ((I.content (handed s d).ip_cache (number_key v) ≡ none)
              ⊎ (I.content (handed s d).ip_cache (number_key v)
                  ≡ I.content s.ip_cache (number_key v)))
            → (I.content (handed s d).ip_cache (number_key v) ≡ none)
              ⊎ (I.content (handed s d).ip_cache (number_key v) ≡ some e)
        kept (inl gone) = inl gone
        kept (inr same) = rw same o.owner

    pub handed-Owns : Owns (handed s d) d (next_number s)
    handed-Owns = record {
      turn = s.f_ip.index;
      taken = omega arith;
      number = refl;
      owner = inr (I.add_self (number_key (next_number s)) d s.ip_cache);
    }

    pub handed-Inv : Inv s → Inv (handed s d)
    handed-Inv i = record { owned = λ e v h. by_key e v h (==-cases d e) }
      where
        same_key :
            (e : Bytes) (v : ℕ)
            → d ≡ e
            → D.content (handed s d).domain_cache (domain_key e) ≡ some v
            → Owns (handed s d) e v
        same_key e v p h =
            let k : next_number s ≡ v = some_inj (
              sym (D.add_self (domain_key d) (next_number s) s.domain_cache)
              ∙ subst (λ x. D.content (handed s d).domain_cache (domain_key x) ≡ some v) (sym p)
                  h) in
            subst (λ x. Owns (handed s d) x v) p (subst (λ w. Owns (handed s d) d w) k handed-Owns)

        by_key :
            (e : Bytes) (v : ℕ)
            → D.content (handed s d).domain_cache (domain_key e) ≡ some v
            → ((d ≡ e) × ((d == e) ≡ true)) ⊎ ((d ≢ e) × ((d == e) ≡ false))
            → Owns (handed s d) e v
        by_key e v h (inl (p, _)) = same_key e v p h
        by_key e v h (inr (q, _)) = still (
            D.add_other (domain_key d) (domain_key e) (next_number s) s.domain_cache
              (λ p. q (key_inj p)))
          where
            key_inj : domain_key d ≡ domain_key e → d ≡ e
            key_inj p = cc

            still :
                ((D.content (handed s d).domain_cache (domain_key e) ≡ none)
                  ⊎ (D.content (handed s d).domain_cache (domain_key e)
                      ≡ D.content s.domain_cache (domain_key e)))
                → Owns (handed s d) e v
            still (inl gone) = absurd (none_some (sym gone ∙ h))
            still (inr same) = handed_keeps e v (i.owned e v (sym same ∙ h))

  -- One call of `resolveDomain`: it gives an address, and either answers from the cache and changes
  -- nothing, or hands out the next one.
  pub data Resolved (s : Dns D I) (d : Bytes) : Bytes → Dns D I → Type 0 where
    hit :
        {t : Dns D I} (v : ℕ)
        → D.content s.domain_cache (domain_key d) ≡ some v
        → Same s t
        → Resolved s d (uint_to_ip v) t
    miss :
        {r t : Dns D I}
        → D.content s.domain_cache (domain_key d) ≡ none
        → Same s r
        → t ≡ handed r d
        → Resolved s d (uint_to_ip (next_number r)) t

  pub resolve_domain-Resolved :
      (s : Dns D I) (name : Bytes)
      → (ip : Bytes) × (t : Dns D I) × (resolve_domain D I s name ≡ some (ip, t))
        × Resolved s (trim_dots name) ip t
  unfolding resolve_domain
  resolve_domain-Resolved s name =
      elim (Option-cases (D.content s.domain_cache (domain_key (trim_dots name)))) [
        | inl e ↦
            let d = trim_dots name in
            let r = (get_by_domain D I s d).1 in
            (
              uint_to_ip (next_number r),
              handed r d,
              rw (rw e at (get_by_domain_value s d), resolve_domain) (resolve_missing_lem r d),
              miss e (get_by_domain-Same s d) refl,
            )
        | inr (v, e) ↦
            let d = trim_dots name in
            (
              uint_to_ip v,
              (get_by_domain D I s d).1,
              rw (rw e at (get_by_domain_value s d), resolve_domain),
              hit v e (get_by_domain-Same s d),
            )
      ]
