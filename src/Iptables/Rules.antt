-- ===== src/Iptables/Rules.antt =====
-- new_iptables/rules.go: the operations and the rules, and how they are written on a command line.
use deepin_network_proxy.Prelude.{
  join_spaces, ◌≡◌, refl, subst, ◌↔◌, Bool, true, false, not, ◌&&◌, List, [], ◌∷◌, ◌++◌, map, arith,
  Bytes, codes, Eq, nat_Eq, list_Eq, ◌==◌, list_eq_iff, ==_refl,
}

pub data Operation : Type 0 where
  append_op insert_op new_op delete_op remove_op policy_op flush_op : Operation

-- `Operation.ToString`.
unfoldable pub to_string : Operation → Bytes
to_string append_op = codes "A"
to_string insert_op = codes "I"
to_string new_op = codes "N"
to_string delete_op = codes "D"
to_string remove_op = codes "X"
to_string policy_op = codes "P"
to_string flush_op = codes "F"

pub record BaseRule : Type 0 where
  pub negated : Bool
  pub match_name : Bytes
  pub param : Bytes

pub record ExtendsElem : Type 0 where
  pub match_name : Bytes
  pub base : BaseRule

pub record ExtendsRule : Type 0 where
  pub match_name : Bytes
  pub elem : ExtendsElem

pub record CompleteRule : Type 0 where
  pub action : Bytes
  pub base_sl : List BaseRule
  pub extends_sl : List ExtendsRule

abbrev pub bang : Bool → List Bytes
bang true = codes "!" ∷ []
bang false = []

-- `BaseRule.String`.
unfoldable pub base_string : BaseRule → Bytes
base_string r = join_spaces (bang r.negated ++ ((b'-' ∷ r.match_name) ∷ r.param ∷ []))

-- `ExtendsElem.String`.
unfoldable pub elem_string : ExtendsElem → Bytes
elem_string e = join_spaces (
    e.match_name ∷ (bang e.base.negated ++ ((b'-' ∷ b'-' ∷ e.base.match_name) ∷ e.base.param ∷ [])))

-- `ExtendsRule.String`.
unfoldable pub extends_string : ExtendsRule → Bytes
extends_string r = join_spaces ((b'-' ∷ r.match_name) ∷ elem_string r.elem ∷ [])

-- `CompleteRule.String`.
unfoldable pub rule_string : CompleteRule → Bytes
rule_string r =
    join_spaces
      (codes "-j" ∷ r.action ∷ (map base_string r.base_sl ++ map extends_string r.extends_sl))

-- `reflect.DeepEqual` on rules. It tells a nil slice from an empty one; here they are one list.
abbrev pub bool_eq : Bool → Bool → Bool
bool_eq true b = b
bool_eq false b = not b

pub bool_eq_iff : (a b : Bool) → (bool_eq a b ≡ true) ↔ (a ≡ b)
bool_eq_iff true b = ground arith
bool_eq_iff false b = ground arith

instance abbrev pub bool_Eq : Eq Bool
bool_Eq = record { beq = bool_eq; beq_iff = bool_eq_iff }

abbrev pub base_eq : BaseRule → BaseRule → Bool
base_eq r s = r.negated == s.negated && (r.match_name == s.match_name && r.param == s.param)

base_parts :
    (r s : BaseRule)
    → r.negated ≡ s.negated
    → r.match_name ≡ s.match_name
    → r.param ≡ s.param
    → r ≡ s
base_parts r s a b c = λ i. record { negated = a i; match_name = b i; param = c i }

pub base_eq_iff : (r s : BaseRule) → (base_eq r s ≡ true) ↔ (r ≡ s)
base_eq_iff r s = (
  λ h. ground (
    arith,
    bool_eq_iff r.negated s.negated,
    list_eq_iff r.match_name s.match_name,
    list_eq_iff r.param s.param,
    base_parts r s,
  ),
  λ e.
      subst (λ x. base_eq r x ≡ true) e
        (rw (==_refl r.negated, ==_refl r.match_name, ==_refl r.param) refl),
)

instance abbrev pub base_Eq : Eq BaseRule
base_Eq = record { beq = base_eq; beq_iff = base_eq_iff }

abbrev pub elem_eq : ExtendsElem → ExtendsElem → Bool
elem_eq r s = r.match_name == s.match_name && r.base == s.base

elem_parts : (r s : ExtendsElem) → r.match_name ≡ s.match_name → r.base ≡ s.base → r ≡ s
elem_parts r s a b = λ i. record { match_name = a i; base = b i }

pub elem_eq_iff : (r s : ExtendsElem) → (elem_eq r s ≡ true) ↔ (r ≡ s)
elem_eq_iff r s = (
  λ h.
      ground
        (arith, list_eq_iff r.match_name s.match_name, base_eq_iff r.base s.base, elem_parts r s),
  λ e. subst (λ x. elem_eq r x ≡ true) e (rw (==_refl r.match_name, ==_refl r.base) refl),
)

instance abbrev pub elem_Eq : Eq ExtendsElem
elem_Eq = record { beq = elem_eq; beq_iff = elem_eq_iff }

abbrev pub extends_eq : ExtendsRule → ExtendsRule → Bool
extends_eq r s = r.match_name == s.match_name && r.elem == s.elem

extends_parts : (r s : ExtendsRule) → r.match_name ≡ s.match_name → r.elem ≡ s.elem → r ≡ s
extends_parts r s a b = λ i. record { match_name = a i; elem = b i }

pub extends_eq_iff : (r s : ExtendsRule) → (extends_eq r s ≡ true) ↔ (r ≡ s)
extends_eq_iff r s = (
  λ h.
      ground (
        arith,
        list_eq_iff r.match_name s.match_name,
        elem_eq_iff r.elem s.elem,
        extends_parts r s,
      ),
  λ e. subst (λ x. extends_eq r x ≡ true) e (rw (==_refl r.match_name, ==_refl r.elem) refl),
)

instance abbrev pub extends_Eq : Eq ExtendsRule
extends_Eq = record { beq = extends_eq; beq_iff = extends_eq_iff }

abbrev pub rule_eq : CompleteRule → CompleteRule → Bool
rule_eq r s = r.action == s.action && (r.base_sl == s.base_sl && r.extends_sl == s.extends_sl)

rule_parts :
    (r s : CompleteRule)
    → r.action ≡ s.action
    → r.base_sl ≡ s.base_sl
    → r.extends_sl ≡ s.extends_sl
    → r ≡ s
rule_parts r s a b c = λ i. record { action = a i; base_sl = b i; extends_sl = c i }

pub rule_eq_iff : (r s : CompleteRule) → (rule_eq r s ≡ true) ↔ (r ≡ s)
rule_eq_iff r s = (
  λ h. ground (
    arith,
    list_eq_iff r.action s.action,
    list_eq_iff r.base_sl s.base_sl,
    list_eq_iff r.extends_sl s.extends_sl,
    rule_parts r s,
  ),
  λ e.
      subst (λ x. rule_eq r x ≡ true) e
        (rw (==_refl r.action, ==_refl r.base_sl, ==_refl r.extends_sl) refl),
)

instance abbrev pub rule_Eq : Eq CompleteRule
rule_Eq = record { beq = rule_eq; beq_iff = rule_eq_iff }
