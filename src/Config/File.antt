-- ===== src/Config/File.antt =====
-- The configuration's file: WritePxyCfg and LoadPxyCfg of config/config.go, GuaranteeDir and GetConfigDir
-- of com/utils.go, and what dbus/Manager.go and dbus/proxyPriv.go make of them. The disk, Go's
-- filepath.Abs and the YAML library are parameters.
pub mod Restart
pub mod Missing
pub mod Memory
use deepin_network_proxy.Prelude.{
  ℕ, zero, suc, ◌+◌, ◌-◌, ◌*◌, ◌/◌, ◌%◌, ◌^◌, ◌≤◌, ◌<◌, ◌≡◌, refl, sym, ap, ap₂, subst, ◌∙◌, ◌≢◌,
  ◌↔◌, ◌⊎◌, inl, inr, Bool, true, false, not, ◌&&◌, ◌||◌, Option, none, some, List, [], ◌∷◌, ◌++◌,
  map, append-nil, append_assoc, arith, ltb, leb, nat_eq, if◌then◌else◌, leb→le, le→leb, nat_eq_iff,
  nat_eq_refl, nat_eq-false, ltb-false, leb-false, Bool-cases, Option-cases, length, get_elem?,
  take, drop, length-append, join_spaces, shell_words, split_on, split_on-append, split_on_without,
  IsWithout, all_words, IsPlain, shell_words-join_spaces, shell_words_plain, set, length-set,
  get_elem?-set, get_elem?-lt, get_elem?-snoc, get_elem?-append_length, get_elem?-append_lt,
  lengths, take-append-drop, length-take_le, length-drop, take-length, take_all, drop-length,
  cut_inside, cut_behind, take-append_length, drop-append_length, Bytes, codes, Eq, nat_Eq, list_Eq,
  ◌==◌, list_eq, list_eq_iff, ==_refl, ==_ne, ==-cases, GoMap, lookup, insert, delete,
  lookup-insert, lookup-delete, bit_and, bit_or, itoa, itoa-injective, one_le_two_pow, some_inj,
  bit_or_comm, bit_or_beside, bit_or_ones, bit_and_ones, bit_and_above, Result, ok, err, ◌>>=◌,
  Result-cases,
}
use deepin_network_proxy.Com.Path.{join_path, enter, path_to}
use deepin_network_proxy.Config.{
  ScopeProxies, ProxyConfig, ConfigError, new_proxy_cfg, get_scope_proxies, set_scope_proxies,
}
use deepin_network_proxy.Define.{Scope}

-- `not_there` is `os.Stat` with an error of the kind IsNotExist. `unmarshal` changes the configuration
-- that it is given.
pub record Disk : Type 1 where
  pub State : Type 0
  pub not_there : State → Bytes → Bool
  pub make_all : State → Bytes → Bool × State
  pub write_file : State → Bytes → Bytes → Bool × State
  pub read_file : State → Bytes → Option Bytes
  pub abs : Bytes → Option Bytes
  pub marshal : ProxyConfig → Option Bytes
  pub unmarshal : Bytes → ProxyConfig → Bool × ProxyConfig

pub data FileError : Type 0 where
  marshal_failed abs_failed make_failed write_failed read_failed unmarshal_failed : FileError

abbrev pub but_last : List Bytes → List Bytes
but_last [] = []
but_last (e ∷ []) = []
but_last (e ∷ d ∷ es) = e ∷ but_last (d ∷ es)

-- Go's `filepath.Dir`, for paths that start at the root.
unfoldable pub dir_of : Bytes → Bytes
dir_of path =
    let place = enter [] (but_last (split_on b'/' path)) in
    if leb (length place) 0 then codes "/" else path_to place

-- `GetConfigDir`, which does not fail, and the file's name.
unfoldable pub get_config_dir : Bytes
get_config_dir = join_path (codes "/etc/deepin" ∷ codes "deepin-proxy" ∷ [])

unfoldable pub config_path : Bytes
config_path = join_path (get_config_dir ∷ codes "proxy.yaml" ∷ [])

-- `ScopeProxies{}`.
abbrev pub zero_proxies : ScopeProxies
zero_proxies = record {
  proxies = none;
  proxy_program = [];
  no_proxy_program = [];
  white_list = [];
  t_port = 0;
  dns_port = 0;
  use_fake_ip = false;
}

abbrev pub or_zero : Result ConfigError ScopeProxies → ScopeProxies
or_zero (ok s) = s
or_zero (err _) = zero_proxies

-- `proxyPrv.loadConfig`: where the scope is not in the configuration, the settings are empty.
unfoldable pub load_scope : ProxyConfig → Scope → ScopeProxies
load_scope c scope = or_zero (get_scope_proxies c scope)

module _ (D : Disk) where
  -- `GuaranteeDir`, with whether it succeeds.
  unfoldable pub guarantee_dir : Bytes → D.State → Bool × D.State
  guarantee_dir path s =
      if D.not_there s (dir_of path) then D.make_all s (dir_of path) else (true, s)

  abbrev pub written : Bool × D.State → Result FileError (Unit {0}) × D.State
  written (true, s) = (ok tt, s)
  written (false, s) = (err write_failed, s)

  abbrev pub write_to : Bytes → Bytes → Bool × D.State → Result FileError (Unit {0}) × D.State
  write_to path buf (true, s) = written (D.write_file s path buf)
  write_to path buf (false, s) = (err make_failed, s)

  -- `WritePxyCfg`.
  unfoldable pub write_pxy_cfg :
      ProxyConfig → Bytes → D.State → Result FileError (Unit {0}) × D.State
  write_pxy_cfg c path s = elim (D.marshal c) [
    | none ↦ (err marshal_failed, s)
    | some buf ↦ elim (D.abs path) [
      | none ↦ (err abs_failed, s)
      | some full ↦ write_to full buf (guarantee_dir (dir_of full) s)
    ]
  ]

  abbrev pub unmarshalled : Bool × ProxyConfig → Result FileError (Unit {0}) × ProxyConfig
  unmarshalled (true, c) = (ok tt, c)
  unmarshalled (false, c) = (err unmarshal_failed, c)

  -- `LoadPxyCfg`, into the configuration that it is called on.
  unfoldable pub load_pxy_cfg :
      ProxyConfig → Bytes → D.State → Result FileError (Unit {0}) × ProxyConfig
  load_pxy_cfg c path s = elim (D.abs path) [
    | none ↦ (err abs_failed, c)
    | some full ↦ elim (D.read_file s full) [
      | none ↦ (err read_failed, c)
      | some buf ↦ unmarshalled (D.unmarshal buf c)
    ]
  ]

  -- `Manager.LoadConfig`: the configuration is new before the file is read, and stays so on an error,
  -- which `main` passes over.
  unfoldable pub load_config : D.State → Result FileError (Unit {0}) × ProxyConfig
  load_config s = load_pxy_cfg new_proxy_cfg config_path s

  -- `Manager.WriteConfig`.
  unfoldable pub write_config : ProxyConfig → D.State → Result FileError (Unit {0}) × D.State
  write_config c s = write_pxy_cfg c config_path s

  -- `proxyPrv.writeConfig`: the manager's configuration afterwards, and what the writing gave.
  unfoldable pub write_scope :
      ProxyConfig
      → Scope
      → ScopeProxies
      → D.State
      → ProxyConfig × Result FileError (Unit {0}) × D.State
  write_scope c scope p s =
      let c' = set_scope_proxies c scope p in let (r, s') = write_config c' s in (c', r, s')

  -- What the development asks of the disk and of `filepath.Abs`: a file reads back as it was written, no
  -- file can be written where its directory is not there, and a clean path from the root is absolute.
  pub record IsLawful : Type 0 where
    pub read-write :
        (s s' : D.State) (path buf : Bytes)
        → D.write_file s path buf ≡ (true, s')
        → D.read_file s' path ≡ some buf
    pub write-not_there :
        (s : D.State) (path buf : Bytes)
        → D.not_there s (dir_of path) ≡ true
        → D.write_file s path buf ≡ (false, s)
    pub abs-join_path : (es : List Bytes) → D.abs (join_path es) ≡ some (join_path es)

  -- The YAML library brings a configuration back.
  abbrev pub Survives : ProxyConfig → Type 0
  Survives c = (buf : Bytes) → D.marshal c ≡ some buf → D.unmarshal buf new_proxy_cfg ≡ (true, c)
