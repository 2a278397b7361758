-- ===== src/Dbus/Service/Willing.antt =====
-- A system where everything succeeds. Its shell keeps the lines that it has run.
use deepin_network_proxy.Prelude.{true, some, List, [], ◌∷◌, ◌++◌, Bytes, codes, nat_Eq, list_Eq}
use deepin_network_proxy.Iptables.Obedient.{obedient, no_spare}
use deepin_network_proxy.Dbus.Service.{System}

abbrev pub willing : System
willing = record {
  net = obedient;
  Shell = List Bytes;
  sh = λ line lines. (true, lines ++ line ∷ []);
  make_dir = λ dir. true;
  remove_dir = λ dir. true;
  echoes = λ pid path. true;
  read_file = λ path. some (codes "41\n42\n");
  listen_tcp = λ port. true;
  listen_udp = λ port. true;
  write_cfg = λ cfg. true;
  spare_rules = no_spare;
  spare_procs = λ n. [];
  spare_paths = λ n. [];
}
