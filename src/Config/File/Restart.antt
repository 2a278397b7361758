-- ===== src/Config/File/Restart.antt =====
-- What a new start of the service finds of the settings that were written.
use deepin_network_proxy.Prelude.{
  ◌≡◌, refl, sym, ap, ◌∙◌, ◌≢◌, inl, inr, Bool, true, false, none, some, arith, if◌then◌else◌,
  Option-cases, Bytes, nat_Eq, list_Eq, Result, ok,
}
use deepin_network_proxy.Prelude.{
  ◌≡◌, refl, sym, ap, ◌∙◌, ◌≢◌, inl, inr, Bool, true, false, none, some, arith, if◌then◌else◌,
  Option-cases, Bytes, nat_Eq, list_Eq, Result, ok,
}
use deepin_network_proxy.Config.{
  ProxyConfig, ScopeProxies, new_proxy_cfg, set_scope_proxies, get_scope_proxies,
}
use deepin_network_proxy.Config.Laws.{get_scope_proxies-set_scope_proxies}
use deepin_network_proxy.Define.{Scope, scope_eq}
use deepin_network_proxy.Config.File.{
  Disk, FileError, get_config_dir, config_path, guarantee_dir, written, write_to, load_pxy_cfg,
  write_config, write_scope, load_config, load_scope, IsLawful, Survives, unmarshalled, or_zero,
}
use deepin_network_proxy.Config.File.Missing.{
  abs-config_path, write_config_lem, write_config_unmarshalled,
}

module _ (D : Disk) (law : IsLawful D) where
  written_back : (r : Bool × D.State) (s' : D.State) → written D r ≡ (ok tt, s') → r ≡ (true, s')
  written_back (true, s) s' e = ground arith
  written_back (false, s) s' e = absurd (ground arith)

  write_to_back :
      (path buf : Bytes) (r : Bool × D.State) (s' : D.State)
      → write_to D path buf r ≡ (ok tt, s')
      → D.read_file s' path ≡ some buf
  write_to_back path buf (true, s) s' e =
      law.read-write s s' path buf (written_back (D.write_file s path buf) s' e)
  write_to_back path buf (false, s) s' e = absurd (ground arith)

  first_of : {A B : Type 0} {x y : A × B} → x ≡ y → x.0 ≡ y.0
  first_of e = λ i. (e i).0

  load_config_lem :
      (s : D.State) (buf : Bytes)
      → D.read_file s config_path ≡ some buf
      → load_config D s ≡ unmarshalled D (D.unmarshal buf new_proxy_cfg)
  unfolding load_config load_pxy_cfg
  load_config_lem s buf there =
      rw (load_config, load_pxy_cfg, abs-config_path D law) (rw there refl)

  -- What WriteConfig has written, LoadConfig of the next start reads, if the YAML library brings it back.
  pub load_config-write_config :
      (c : ProxyConfig) (s : D.State)
      → Survives D c
      → (write_config D c s).0 ≡ ok tt
      → load_config D (write_config D c s).1 ≡ (ok tt, c)
  load_config-write_config c s back e = elim (Option-cases (D.marshal c)) [
    | inl no_text ↦
        let never = sym (first_of (write_config_unmarshalled D law c s no_text)) ∙ e in ground arith
    | inr (buf, text) ↦
        let there =
          write_to_back config_path buf (guarantee_dir D get_config_dir s) (write_config D c s).1
            (sym (write_config_lem D law c s buf text) ∙ (λ i. (e i, (write_config D c s).1))) in
        load_config_lem _ buf there ∙ rw (back buf text) refl
  ]

  load_scope-set_scope_proxies :
      (c : ProxyConfig) (scope other : Scope) (p : ScopeProxies)
      → c.all_proxies ≢ none
      → or_zero (get_scope_proxies (set_scope_proxies c scope p) other)
        ≡ (if scope_eq scope other then p else or_zero (get_scope_proxies c other))
  load_scope-set_scope_proxies c scope other p made =
      let got = get_scope_proxies-set_scope_proxies c scope other p in
      elim (Option-cases c.all_proxies) [
        | inl missing ↦ absurd (made missing)
        | inr (all, there) ↦ ground (arith, got, there)
      ]

  -- Settings that a scope's writeConfig has written are those that the scope has after the next start,
  -- and every other scope has what the configuration held for it.
  pub load_scope-write_scope :
      (c : ProxyConfig) (scope other : Scope) (p : ScopeProxies) (s : D.State)
      → c.all_proxies ≢ none
      → Survives D (set_scope_proxies c scope p)
      → (write_scope D c scope p s).1 ≡ ok tt
      → load_scope (load_config D (write_scope D c scope p s).2).1 other
        ≡ (if scope_eq scope other then p else load_scope c other)
  unfolding write_scope load_scope
  load_scope-write_scope c scope other p s made back e =
      let loaded = load_config-write_config (set_scope_proxies c scope p) s back e in
      ap (λ (l : Result FileError (Unit {0}) × ProxyConfig). or_zero (get_scope_proxies l.1 other))
        loaded
      ∙ load_scope-set_scope_proxies c scope other p made
