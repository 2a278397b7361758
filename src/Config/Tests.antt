-- ===== src/Config/Tests.antt =====
-- A configuration that cannot be written.
use deepin_network_proxy.Config.File.Memory.{memory, memory-IsLawful}
use deepin_network_proxy.Prelude.{
  ◌≡◌, refl, Bool, Option, none, split_on, Bytes, codes, nat_Eq, list_Eq, ◌==◌, err,
}
use deepin_network_proxy.Config.{new_proxy_cfg}
use deepin_network_proxy.Config.File.{FileError, get_config_dir, write_config}
use deepin_network_proxy.Config.File.Missing.{write_config_fails}
use deepin_network_proxy.Com.Path.{join_path, enter, path_to, slashed}

abbrev no_files : Bytes → Option Bytes
no_files p = none

abbrev no_proxy_dir : Bytes → Bool
no_proxy_dir p = p == codes "/etc/deepin/deepin-proxy"

write_config_fails_example :
    (e : FileError) × (write_config (memory no_proxy_dir new_proxy_cfg) new_proxy_cfg no_files
      ≡ (err e, no_files))
unfolding get_config_dir join_path enter path_to slashed split_on
write_config_fails_example =
    write_config_fails (memory no_proxy_dir new_proxy_cfg)
      (memory-IsLawful no_proxy_dir new_proxy_cfg) new_proxy_cfg no_files refl refl
