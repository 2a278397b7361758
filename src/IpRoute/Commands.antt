-- ===== src/IpRoute/Commands.antt =====
-- The line that makes or removes a rule, and how `ip rule` reads it back.
use deepin_network_proxy.Prelude.{
  ◌≡◌, refl, sym, ap, ◌∙◌, Bool, true, false, ◌&&◌, Option, none, some, List, [], ◌∷◌, ◌++◌, map,
  append-nil, append_assoc, arith, if◌then◌else◌, join_spaces, shell_words, all_words,
  shell_words-join_spaces, Bytes, codes, nat_Eq, list_Eq, ◌==◌,
}
use deepin_network_proxy.IpRoute.{
  table_args, Action, add_action, del_action, action_string, RuleSelector, selector_args,
  selector_string, RuleAction, rule_action_args, rule_action_string, Rule, rule_command,
}
use deepin_network_proxy.IpRoute.Text.{
  options, read_options, read_options-options, ArePlain, ArePlain-front, options-append, AreWords,
  AreWords-append, AreWords-options, all_words_words, IsWord, shell_words_word, no_head,
  no_head-options,
}

abbrev pub selector_options : RuleSelector → List (Bytes × Bytes)
selector_options s =
    (codes "from", s.src_prefix)
    ∷ (codes "to", s.dest_prefix)
    ∷ (codes "fwmark", s.fwmark)
    ∷ (codes "ipproto", s.ip_proto)
    ∷ (codes "sport", s.s_port)
    ∷ (codes "dport", s.d_port)
    ∷ []

abbrev pub action_options : RuleAction → List (Bytes × Bytes)
action_options a =
    (codes "protocol", a.proto) ∷ (codes "nat", a.nat) ∷ (codes "realms", a.realms) ∷ []

abbrev pub rule_options : Rule → List (Bytes × Bytes)
rule_options r = selector_options r.rule_selector ++ action_options r.rule_action

-- No field has a space in it; a field may be empty, and is then left out of the line.
abbrev pub HasPlainFields : Rule → Type 0
HasPlainFields r = ArePlain (rule_options r)

-- The names of all the options, in the order that the program writes them in.
abbrev pub rule_words : List Bytes
rule_words =
    codes "from"
    ∷ codes "to"
    ∷ codes "fwmark"
    ∷ codes "ipproto"
    ∷ codes "sport"
    ∷ codes "dport"
    ∷ codes "protocol"
    ∷ codes "nat"
    ∷ codes "realms"
    ∷ []

abbrev pub read_not : List Bytes → Bool × List Bytes
read_not [] = (false, [])
read_not (w ∷ ws) = if w == codes "!" then (true, ws) else (false, w ∷ ws)

abbrev pub read_table : List Bytes → Option Bytes
read_table (w ∷ table ∷ []) = if w == codes "table" then some table else none
read_table _ = none

abbrev pub read_end :
    Bytes → Bool → List Bytes × List Bytes → Option (Bytes × Bool × List Bytes × Bytes)
read_end action negated (values, behind) = elim (read_table behind) [
  | none ↦ none
  | some table ↦ some (action, negated, values, table)
]

abbrev pub read_signed : Bytes → Bool × List Bytes → Option (Bytes × Bool × List Bytes × Bytes)
read_signed action (negated, ws) = read_end action negated (read_options rule_words ws)

-- `ip rule ACTION [!] OPTIONS table TABLE`: the action, the sign, the values and the table.
abbrev pub read_rule : List Bytes → Option (Bytes × Bool × List Bytes × Bytes)
read_rule (ip ∷ object ∷ action ∷ rest) =
    if ip == codes "ip" && object == codes "rule" then read_signed action (read_not rest) else none
read_rule _ = none

abbrev sign : Bool → List Bytes
sign negated = if negated then codes "!" ∷ [] else []

sign_words : (negated : Bool) → AreWords (sign negated)
sign_words true = omega arith
sign_words false = tt

selector_words :
    (s : RuleSelector)
    → ArePlain (selector_options s)
    → shell_words (selector_string s) ≡ sign s.mark ++ options (selector_options s)
unfolding selector_string selector_args
selector_words s h =
    let same : selector_args s ≡ sign s.mark ++ options (selector_options s) = simp append-nil in
    shell_words-join_spaces (selector_args s)
    ∙ ap all_words same
    ∙ all_words_words (sign s.mark ++ options (selector_options s)) (
        AreWords-append (sign s.mark) (options (selector_options s)) (sign_words s.mark)
          (AreWords-options (selector_options s) (omega arith) h))

action_words :
    (a : RuleAction)
    → ArePlain (action_options a)
    → shell_words (rule_action_string a) ≡ options (action_options a)
unfolding rule_action_string rule_action_args
action_words a h =
    let same : rule_action_args a ≡ options (action_options a) = simp append-nil in
    shell_words-join_spaces (rule_action_args a)
    ∙ ap all_words same
    ∙ all_words_words (options (action_options a))
        (AreWords-options (action_options a) (omega arith) h)

action_string_word : (a : Action) → shell_words (action_string a) ≡ action_string a ∷ []
unfolding action_string shell_words
action_string_word add_action = refl
action_string_word del_action = refl

ip_rule_words : shell_words (codes "ip rule") ≡ codes "ip" ∷ codes "rule" ∷ []
unfolding shell_words
ip_rule_words = refl

regroup :
    (signs sel act behind : List Bytes)
    → (signs ++ sel) ++ (act ++ behind) ≡ signs ++ ((sel ++ act) ++ behind)
regroup signs sel act behind =
    append_assoc signs sel (act ++ behind)
    ∙ ap (λ ws. signs ++ ws) (sym (append_assoc sel act behind))

rule_command_words :
    (a : Action) (r : Rule) (table : Bytes)
    → r.route_table ≡ some table
    → IsWord table
    → HasPlainFields r
    → shell_words (rule_command a r)
      ≡ codes "ip"
        ∷ codes "rule"
        ∷ action_string a
        ∷ (sign r.rule_selector.mark ++ (options (rule_options r) ++ codes "table" ∷ table ∷ []))
unfolding rule_command
rule_command_words a r table e w h =
    let (front, back) =
      ArePlain-front (selector_options r.rule_selector) (action_options r.rule_action) h in
    let sel = r.rule_selector in
    let act = r.rule_action in
    let os = options (selector_options sel) in
    let ps = options (action_options act) in
    let end : List Bytes = codes "table" ∷ table ∷ [] in
    let parts : List Bytes =
      codes "ip rule" ∷ action_string a ∷ selector_string sel ∷ rule_action_string act ∷ end in
    ap
      (λ t. shell_words (
        join_spaces (
          codes "ip rule"
          ∷ action_string a
          ∷ selector_string sel
          ∷ rule_action_string act
          ∷ table_args t)))
      e
    ∙ shell_words-join_spaces parts
    ∙ rw
        (
          ip_rule_words,
          action_string_word a,
          selector_words sel front,
          action_words act back,
          shell_words_word (codes "table") (omega arith),
          shell_words_word table w,
        )
        (ap (λ ws. codes "ip" ∷ codes "rule" ∷ action_string a ∷ ws)
          (regroup (sign sel.mark) os ps end
            ∙ ap (λ ws. sign sel.mark ++ (ws ++ end))
                (sym (options-append (selector_options sel) (action_options act)))))

read_not-sign :
    (negated : Bool) (ws : List Bytes)
    → no_head (codes "!") ws ≡ true
    → read_not (sign negated ++ ws) ≡ (negated, ws)
read_not-sign true ws h = refl
read_not-sign false [] h = refl
read_not-sign false (w ∷ ws) h = ground arith

-- The line of a rule with a table, where no field has a space in it, read back: the action, the sign,
-- each field in its order, and the table.
pub read_rule-rule_command :
    (a : Action) (r : Rule) (table : Bytes)
    → r.route_table ≡ some table
    → IsWord table
    → HasPlainFields r
    → read_rule (shell_words (rule_command a r))
      ≡ some (
        action_string a,
        r.rule_selector.mark,
        map (λ (o : Bytes × Bytes). o.1) (rule_options r),
        table,
      )
read_rule-rule_command a r table e w h =
    let end : List Bytes = codes "table" ∷ table ∷ [] in
    let os = rule_options r in
    let signed : read_not (sign r.rule_selector.mark ++ (options os ++ end))
        ≡ (r.rule_selector.mark, options os ++ end) =
      read_not-sign r.rule_selector.mark (options os ++ end)
        (no_head-options (codes "!") os end refl refl) in
    let valued = read_options-options os end refl in
    ap read_rule (rule_command_words a r table e w h)
    ∙ ap (read_signed (action_string a)) signed
    ∙ ap (read_end (action_string a) r.rule_selector.mark) valued
