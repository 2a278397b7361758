-- ===== src/Define.antt =====
-- define/define.go: the scopes, the priorities and the names of the proxy protocols.
use deepin_network_proxy.Prelude.{ℕ, ◌≡◌, ◌↔◌, Bool, true, false, arith, Bytes, codes, Eq}

pub data Scope : Type 0 where
  main app global : Scope

pub data Priority : Type 0 where
  main_priority app_priority global_priority : Priority

-- `Scope.String`. A value of another scope cannot be built here.
unfoldable pub scope_string : Scope → Bytes
scope_string main = codes "Main"
scope_string app = codes "App"
scope_string global = codes "Global"

-- The numbers that `iota` gives.
unfoldable pub rank : Priority → ℕ
rank main_priority = 0
rank app_priority = 1
rank global_priority = 2

unfoldable pub scope_eq : Scope → Scope → Bool
scope_eq main main = true
scope_eq app app = true
scope_eq global global = true
scope_eq _ _ = false

pub scope_eq_iff : (s t : Scope) → (scope_eq s t ≡ true) ↔ (s ≡ t)
unfolding scope_eq
scope_eq_iff main t = ground arith
scope_eq_iff app t = ground arith
scope_eq_iff global t = ground arith

instance abbrev pub scope_Eq : Eq Scope
scope_Eq = record { beq = scope_eq; beq_iff = scope_eq_iff }

-- The names that a scope lends to a chain, a controller or a D-Bus object tell the scopes apart.
pub scope_string-injective : (s t : Scope) → scope_string s ≡ scope_string t → s ≡ t
unfolding scope_string
scope_string-injective main t h = ground arith
scope_string-injective app t h = ground arith
scope_string-injective global t h = ground arith

pub rank-injective : (p q : Priority) → rank p ≡ rank q → p ≡ q
unfolding rank
rank-injective main_priority q h = ground arith
rank-injective app_priority q h = ground arith
rank-injective global_priority q h = ground arith
