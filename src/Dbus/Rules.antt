-- ===== src/Dbus/Rules.antt =====
-- The rules that dbus/Manager.go and dbus/proxyPriv_iptables.go write, and those of new_iptables/rules.go.
use deepin_network_proxy.Prelude.{
  ℕ, Bool, true, false, [], ◌∷◌, ◌++◌, Bytes, codes, nat_Eq, list_Eq, itoa,
}
use deepin_network_proxy.Define.{Scope, main, global, scope_string}
use deepin_network_proxy.Iptables.Rules.{BaseRule, ExtendsRule, CompleteRule}

abbrev pub base_rule : Bytes → Bytes → BaseRule
base_rule match_name param = record { negated = false; match_name = match_name; param = param }

abbrev pub extends_rule : Bytes → Bytes → BaseRule → ExtendsRule
extends_rule match_name elem base = record {
  match_name = match_name;
  elem = record { match_name = elem; base = base };
}

-- `-m cgroup --path`, negated or not.
abbrev pub cgroup_rule : Bool → Bytes → ExtendsRule
cgroup_rule mark path =
    extends_rule (codes "m") (codes "cgroup")
      (record { negated = mark; match_name = codes "path"; param = path })

-- `-j Main` in the OUTPUT chain of mangle.
unfoldable pub main_jump : CompleteRule
main_jump = record { action = scope_string main; base_sl = []; extends_sl = [] }

unfoldable pub skip_loopback : CompleteRule
skip_loopback = record {
  action = codes "RETURN";
  base_sl = base_rule (codes "o") (codes "lo") ∷ [];
  extends_sl = [];
}

unfoldable pub skip_main : CompleteRule
skip_main = record {
  action = codes "RETURN";
  base_sl = [];
  extends_sl = cgroup_rule false (scope_string main ++ codes ".slice") ∷ [];
}

-- The variable `mark`: the rule of the global scope is for the packets of all other cgroups.
abbrev pub is_negated : Scope → Bool
is_negated global = true
is_negated _ = false

-- The rule of `createTable` that jumps to the scope's own chain.
unfoldable pub scope_jump : Scope → Bytes → CompleteRule
scope_jump scope controller = record {
  action = scope_string scope;
  base_sl = base_rule (codes "p") (codes "tcp") ∷ [];
  extends_sl = cgroup_rule (is_negated scope) controller ∷ [];
}

-- Its rule that redirects DNS queries.
unfoldable pub dns_rule : Scope → Bytes → ℕ → CompleteRule
dns_rule scope controller dns_port = record {
  action = codes "REDIRECT";
  base_sl =
      base_rule (codes "p") (codes "udp")
      ∷ base_rule (codes "-dport") (codes "53")
      ∷ base_rule (codes "-to-ports") (itoa dns_port)
      ∷ [];
  extends_sl = cgroup_rule (is_negated scope) controller ∷ [];
}

-- The rule of `appendRule` that marks the packets of the scope.
unfoldable pub mark_rule : ℕ → CompleteRule
mark_rule t_port = record {
  action = codes "MARK";
  base_sl = base_rule (codes "-set-mark") (itoa t_port) ∷ [];
  extends_sl = [];
}

-- The rule that `appendRule` appends, and `releaseRule` deletes, in the PREROUTING chain of mangle.
unfoldable pub tproxy_rule : ℕ → CompleteRule
tproxy_rule t_port = record {
  action = codes "TPROXY";
  base_sl = [];
  extends_sl =
      extends_rule (codes "p") (codes "tcp") (base_rule (codes "on-port") (itoa t_port))
      ∷ extends_rule (codes "m") (codes "mark") (base_rule (codes "mark") (itoa t_port))
      ∷ [];
}
