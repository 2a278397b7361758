-- ===== src/Prelude/Maps.antt =====
-- Go's maps as association lists with at most the first binding of a key read: reading a missing key
-- gives `none`, writing replaces, `delete` of a missing key changes nothing.
use mathlib.Core.Path.{◌≡◌, refl}
use mathlib.Core.Option.{Option, none, some}
use mathlib.Core.List.{List, [], ◌∷◌}
use native.Mathlib.Omega.{arith}
use deepin_network_proxy.Prelude.Tests.{if◌then◌else◌}
use deepin_network_proxy.Prelude.Equality.{Eq, ◌==◌}

abbrev pub GoMap {ℓ} : Type ℓ → Type ℓ → Type ℓ
GoMap K V = List (K × V)

module _ {ℓ} {K V : Type ℓ} ⦃e : Eq K⦄ where
  unfoldable pub lookup : K → GoMap K V → Option V
  lookup k [] = none
  lookup k ((j, v) ∷ m) = if j == k then some v else lookup k m

  unfoldable pub insert : K → V → GoMap K V → GoMap K V
  insert k new ((j, old) ∷ rest) =
      let later = insert k new rest in if j == k then (k, new) ∷ rest else (j, old) ∷ later
  insert k new [] = (k, new) ∷ []

  -- Removes every binding of the key.
  unfoldable pub delete : K → GoMap K V → GoMap K V
  delete k [] = []
  delete k ((j, w) ∷ m) = let rest = delete k m in if j == k then rest else (j, w) ∷ rest

  pub lookup-delete :
      (k j : K) (m : GoMap K V) → lookup j (delete k m) ≡ (if k == j then none else lookup j m)
  unfolding delete lookup
  lookup-delete k j [] = ground arith
  lookup-delete k j ((i, old) ∷ rest) =
      let later = lookup-delete k j rest in
      ground (arith, later, e.beq_iff i k, e.beq_iff i j, e.beq_iff k j)

  -- Reading back what was written, at any key.
  pub lookup-insert :
      (written read : K) (new : V) (m : GoMap K V)
      → lookup read (insert written new m) ≡ (if written == read then some new else lookup read m)
  unfolding insert lookup
  lookup-insert written read new ((i, old) ∷ rest) =
      let later = lookup-insert written read new rest in
      ground (arith, later, e.beq_iff i written, e.beq_iff i read, e.beq_iff written read)
  lookup-insert written read new [] = refl
