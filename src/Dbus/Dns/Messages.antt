-- ===== src/Dbus/Dns/Messages.antt =====
-- Whole messages to the DNS server: ServeDNS and parseQuery of dbus/proxyPriv_proxy_dns.go.
use deepin_network_proxy.Dbus.FakeIp.{u32, uint_to_ip}
use deepin_network_proxy.Dbus.Lru.{Lru}
use deepin_network_proxy.Dbus.Dns.{Dns, Question, type_a, trim_dots, get_by_ip, parse_query}
use deepin_network_proxy.Dbus.Dns.Owners.{Owns, Inv}
use deepin_network_proxy.Dbus.Dns.History
use deepin_network_proxy.Dbus.Dns.History.{Keeps}
use deepin_network_proxy.Prelude.{
  ℕ, ◌+◌, ◌≤◌, ◌<◌, ◌≡◌, ◌⊎◌, Option, none, some, List, [], ◌∷◌, ◌++◌, map, nat_eq, if◌then◌else◌,
  length, Bytes, nat_Eq, list_Eq,
}

-- The names that a message asks the address of.
abbrev pub asked_names : List Question → List Bytes
asked_names [] = []
asked_names (q ∷ qs) = if nat_eq q.qtype type_a then q.name ∷ asked_names qs else asked_names qs

module _ {Rr : Type 0} (new_rr : Bytes → Bytes → Option Rr) where
  -- The records of a reply.
  abbrev pub replies : List (Bytes × Bytes) → List Rr
  replies [] = []
  replies ((name, ip) ∷ ps) = elim (new_rr name ip) [
    | none ↦ replies ps
    | some rr ↦ rr ∷ replies ps
  ]

module _ (D : Lru ℕ) (I : Lru Bytes) where
  -- Each address leads to the domain that it was given for, or to no domain.
  abbrev pub Lead : Dns D I → List (Bytes × Bytes) → Type 0
  Lead u [] = Unit {0}
  Lead u ((name, ip) ∷ ps) =
      ((found : Option Bytes) × (w : Dns D I) × (get_by_ip D I u ip ≡ some (found, w))
        × ((found ≡ none) ⊎ (found ≡ some (trim_dots name))))
      × Lead u ps

  -- The same after further calls, none of which panics.
  abbrev pub LeadAfter : Option (Dns D I) → List (Bytes × Bytes) → Type 0
  LeadAfter none ps = Unit {0}
  LeadAfter (some u) ps = Lead u ps

  abbrev Owned : Dns D I → List (Bytes × Bytes) → Type 0
  Owned t [] = Unit {0}
  Owned t ((name, ip) ∷ ps) =
      ((v : ℕ) × (ip ≡ uint_to_ip v) × (v < u32) × Owns D I t (trim_dots name) v) × Owned t ps

  module _ {Rr : Type 0} (new_rr : Bytes → Bytes → Option Rr) where
    -- What `parseQuery` comes to.
    record Parsed (s : Dns D I) (qs : List Question) (answer : List Rr) : Type 0 where
      pairs : List (Bytes × Bytes)
      after : Dns D I
      same : parse_query D I new_rr s qs answer ≡ some (answer ++ replies new_rr pairs, after)
      names : map (λ (p : Bytes × Bytes). p.0) pairs ≡ asked_names qs
      inv : Inv D I after
      count : after.f_ip.index ≤ s.f_ip.index + length qs
      keeps : (d : Bytes) (v : ℕ) → Owns D I s d v → Owns D I after d v
      owned : Owned after pairs
