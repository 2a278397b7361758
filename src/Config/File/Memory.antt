-- ===== src/Config/File/Memory.antt =====
-- A disk in memory that meets what Config.File asks of a disk.
use deepin_network_proxy.Prelude.{
  ◌≡◌, refl, sym, ap, ◌∙◌, inl, inr, Bool, true, false, Option, some, arith, if◌then◌else◌,
  Bool-cases, Bytes, codes, nat_Eq, list_Eq, ◌==◌, ==_refl,
}
use deepin_network_proxy.Config.{ProxyConfig}
use deepin_network_proxy.Config.File.{Disk, IsLawful, dir_of}

module _ {A B : Type 0} where
  second_of : {x y : A × B} → x ≡ y → x.1 ≡ y.1
  second_of e = λ i. (e i).1

  first_of : {x y : A × B} → x ≡ y → x.0 ≡ y.0
  first_of e = λ i. (e i).0

-- Where `gone` says which directories are not there. The YAML library knows one configuration.
abbrev pub memory : (Bytes → Bool) → ProxyConfig → Disk
memory gone known = record {
  State = Bytes → Option Bytes;
  not_there = λ s p. gone p;
  make_all = λ s p. (true, s);
  write_file = λ s p buf.
      if gone (dir_of p) then (false, s) else (true, λ q. if q == p then some buf else s q);
  read_file = λ s p. s p;
  abs = λ p. some p;
  marshal = λ c. some (codes "all");
  unmarshal = λ buf c. (true, known);
}

pub memory-IsLawful : (gone : Bytes → Bool) (known : ProxyConfig) → IsLawful (memory gone known)
memory-IsLawful gone known = record {
  read-write = λ s s' path buf e. written path buf s s' e;
  write-not_there = λ s path buf missing. rw missing refl;
  abs-join_path = λ es. refl;
}
  where
    written :
        (path buf : Bytes) (s s' : Bytes → Option Bytes)
        → (memory gone known).write_file s path buf ≡ (true, s')
        → s' path ≡ some buf
    written path buf s s' e = elim (Bool-cases (gone (dir_of path))) [
      | inl missing ↦ let never = first_of (rw missing at e) in absurd (ground arith)
      | inr there ↦
          let new = second_of (rw there at e) in
          sym (ap (λ (g : Bytes → Option Bytes). g path) new) ∙ rw (==_refl path) refl
    ]
