-- ===== src/Common.antt =====
-- The names that the components share: the libraries', passed on, and those of the children.
mod Tests
mod Lists
mod Maps
mod Int
pub use Tests.{
  ltb, leb, nat_beq, if◌then◌else◌, ltb→lt, lt→ltb, leb→le, nat_beq_iff, tests, if_elim, Bool-cases,
  none≢some, some_inj, Option-cases, Eq, ◌==◌, nat_eq, string_eq, Bytes, beq_refl, bytes_beq_refl,
  bytes_beq_iff, bytes_eq,
}
unfoldable pub use Tests.{bytes_beq}
pub use Lists.*
pub use Maps.{Dict, lookup-insert, lookup-remove, dict_laws}
unfoldable pub use Maps.{lookup, insert, remove}
pub use Int.{ℤ, pos, negsuc}
pub use Prim.Native.Nat.{ℕ, zero, suc, ◌+◌, ◌-◌, ◌*◌, ◌/◌, ◌%◌, ◌^◌, ◌≤◌, ◌<◌}
pub use Prim.Native.String.{String}
pub use mathlib.Core.Path.{◌≡◌, refl, sym, ap, subst, ◌∙◌}
pub use mathlib.Core.Logic.{◌≢◌, ◌↔◌, ◌⊎◌, inl, inr}
pub use mathlib.Core.Bool.{Bool, true, false, not, ◌&&◌, ◌||◌}
pub use mathlib.Core.Option.{Option, none, some}
pub use mathlib.Core.List.{List, [], ◌∷◌, ◌++◌, map}
pub use native.Mathlib.Omega.{arith}
