-- ===== src/Prelude.antt =====
-- Names that all modules share: the libraries', passed on, and those of the children below.
-- `Tests` has Boolean tests, `Lists` the lists over the native numbers, `Equality` the interface of
-- Go's comparable types, `Maps` Go's maps, `Results` the values that a fallible Go function returns,
-- `Words` the words of a command line.
mod Tests
mod Lists
mod Equality
mod Maps
mod Results
mod Bits
mod Decimal
mod Words
pub use Tests.*
pub use Lists.*
pub use Equality.*
unfoldable pub use Maps.*
unfoldable pub use Decimal.*
unfoldable pub use Words.*
pub use Bits.*
pub use Results.*
pub use Prim.Native.Nat.{ℕ, zero, suc, ◌+◌, ◌-◌, ◌*◌, ◌/◌, ◌%◌, ◌^◌, ◌≤◌, ◌<◌, bit_and, bit_or}
pub use mathlib.Core.Path.{◌≡◌, refl, sym, ap, ap₂, subst, ◌∙◌}
pub use mathlib.Core.Logic.{◌≢◌, ◌↔◌, ◌⊎◌, inl, inr}
pub use mathlib.Core.Bool.{Bool, true, false, not, ◌&&◌, ◌||◌}
pub use mathlib.Core.Option.{Option, none, some}
pub use mathlib.Core.List.{List, [], ◌∷◌, ◌++◌, map, append-nil, append_assoc}
pub use native.Mathlib.Omega.{arith}
