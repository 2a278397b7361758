-- ===== src/IpRoute/Tests.antt =====
-- The rule that a scope makes at TPort 8080.
use deepin_network_proxy.Prelude.{
  ◌≡◌, refl, false, some, [], ◌∷◌, arith, join_spaces, shell_words, codes, nat_Eq, list_Eq,
}
use deepin_network_proxy.IpRoute.{
  add_action, action_string, Rule, rule_command, selector_string, selector_args, option_args,
  rule_action_string, rule_action_args,
}
use deepin_network_proxy.IpRoute.Commands.{read_rule, read_rule-rule_command}

abbrev redirect : Rule
redirect = record {
  route_table = some (codes "100");
  rule_selector = record {
    mark = false;
    src_prefix = [];
    dest_prefix = [];
    fwmark = codes "8080";
    ip_proto = [];
    s_port = [];
    d_port = [];
  };
  rule_action = record { proto = []; nat = []; realms = [] };
}

-- Two spaces stand where the action has no text.
redirect_text : rule_command add_action redirect ≡ codes "ip rule add fwmark 8080  table 100"
unfolding rule_command action_string selector_string selector_args option_args rule_action_string
    rule_action_args join_spaces
redirect_text = refl

read_rule-rule_command_example :
    read_rule (shell_words (rule_command add_action redirect))
    ≡ some
        (codes "add", false, [] ∷ [] ∷ codes "8080" ∷ [] ∷ [] ∷ [] ∷ [] ∷ [] ∷ [] ∷ [], codes "100")
unfolding action_string
read_rule-rule_command_example =
    read_rule-rule_command add_action redirect (codes "100") refl (omega arith) (omega arith)
