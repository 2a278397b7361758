-- ===== src/Config/File/Missing.antt =====
-- What WriteConfig does where the configuration's directory is not there.
use deepin_network_proxy.Prelude.{
  ◌≡◌, refl, ap, ◌∙◌, inl, inr, true, false, none, some, [], ◌∷◌, Option-cases, split_on, Bytes,
  codes, nat_Eq, list_Eq, err,
}
use deepin_network_proxy.Com.Path.{join_path, enter, path_to, slashed}
use deepin_network_proxy.Config.{ProxyConfig}
use deepin_network_proxy.Config.File.{
  Disk, FileError, dir_of, get_config_dir, config_path, guarantee_dir, write_to, write_pxy_cfg,
  write_config, write_failed, marshal_failed, IsLawful,
}

pub dir_of-config_path : dir_of config_path ≡ get_config_dir
unfolding dir_of config_path get_config_dir join_path enter path_to slashed split_on
dir_of-config_path = refl

pub dir_of-get_config_dir : dir_of get_config_dir ≡ codes "/etc/deepin"
unfolding dir_of get_config_dir join_path enter path_to slashed split_on
dir_of-get_config_dir = refl

pub abs-config_path : (D : Disk) → IsLawful D → D.abs config_path ≡ some config_path
unfolding config_path
abs-config_path D law = law.abs-join_path (get_config_dir ∷ codes "proxy.yaml" ∷ [])

module _ (D : Disk) (law : IsLawful D) where
  guarantee_dir_passes :
      (path : Bytes) (s : D.State)
      → D.not_there s (dir_of path) ≡ false
      → guarantee_dir D path s ≡ (true, s)
  unfolding guarantee_dir
  guarantee_dir_passes path s there = rw there refl

  pub write_config_unmarshalled :
      (c : ProxyConfig) (s : D.State)
      → D.marshal c ≡ none
      → write_config D c s ≡ (err marshal_failed, s)
  unfolding write_config write_pxy_cfg
  write_config_unmarshalled c s no_text = rw (write_config, write_pxy_cfg, no_text) refl

  pub write_config_lem :
      (c : ProxyConfig) (s : D.State) (buf : Bytes)
      → D.marshal c ≡ some buf
      → write_config D c s ≡ write_to D config_path buf (guarantee_dir D get_config_dir s)
  unfolding write_config write_pxy_cfg
  write_config_lem c s buf text =
      rw (write_config, write_pxy_cfg, text)
        (rw (abs-config_path D law)
          (ap (λ (d : Bytes). write_to D config_path buf (guarantee_dir D d s)) dir_of-config_path))

  -- GuaranteeDir makes the directory above the one that the file goes to. So WriteConfig fails, and the
  -- disk is as before, where /etc/deepin is there and its directory deepin-proxy is not.
  pub write_config_fails :
      (c : ProxyConfig) (s : D.State)
      → D.not_there s (codes "/etc/deepin") ≡ false
      → D.not_there s get_config_dir ≡ true
      → (e : FileError) × (write_config D c s ≡ (err e, s))
  write_config_fails c s there missing = elim (Option-cases (D.marshal c)) [
    | inl no_text ↦ (marshal_failed, write_config_unmarshalled c s no_text)
    | inr (buf, text) ↦
        let passes = guarantee_dir_passes get_config_dir s (rw dir_of-get_config_dir there) in
        let fails = law.write-not_there s config_path buf (rw dir_of-config_path missing) in
        (write_failed, write_config_lem c s buf text ∙ rw passes (rw fails refl))
  ]
