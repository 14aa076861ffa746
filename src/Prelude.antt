-- ===== src/Prelude.antt =====
-- The names that the components share: those of the libraries, and those of the children.
mod Tests
mod Lists
mod Maps
mod Heap
mod Int
mod Windows
pub use Tests.*
pub use Lists.*
pub use Maps.*
pub use Heap.*
unfoldable pub use Maps.{lookup, insert, delete}
pub use Int.*
pub use Windows.*
pub use Prim.Native.Nat.{ℕ, zero, suc, ◌+◌, ◌-◌, ◌*◌, ◌/◌, ◌%◌, ◌^◌, ◌≤◌, ◌<◌}
pub use Prim.Native.String.{String}
pub use mathlib.Core.Path.{◌≡◌, refl, sym, ap, subst, ◌∙◌}
pub use mathlib.Core.Logic.{◌≢◌, ◌↔◌, ◌⊎◌, inl, inr}
pub use mathlib.Core.Bool.{Bool, true, false, not, ◌&&◌, ◌||◌}
pub use mathlib.Core.Option.{Option, none, some}
pub use mathlib.Core.List.{List, [], ◌∷◌, ◌++◌, map, Memᴰ}
pub use native.Mathlib.Omega.{arith}
