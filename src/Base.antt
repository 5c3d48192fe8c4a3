-- ===== src/Base.antt =====
-- The names that the modules of the development share: the libraries', passed on, and those of the
-- children, which hold Boolean tests, lists, machine integers and dictionaries.
mod Tests
mod Lists
mod Maps
mod Int
pub mod Options
pub use Tests.*
pub use Lists.*
pub use Maps.*
pub use Int.*
unfoldable pub use Lists.{text_eq}
unfoldable pub use Maps.{lookup, insert, assign, erase}
unfoldable pub use Int.{bits32, bits64, int_of_bits, to_int, ltb_ℤ, leb_ℤ, eqb_ℤ, ◌-ℤ◌}
pub use Prim.Native.Nat.{ℕ, zero, suc, ◌+◌, ◌-◌, ◌*◌, ◌/◌, ◌%◌, ◌^◌, ◌≤◌, ◌<◌}
pub use mathlib.Core.Path.{◌≡◌, refl, sym, ap, ◌∙◌, subst, fun_ext}
pub use mathlib.Core.Logic.{◌≢◌, ◌↔◌, ◌⊎◌, inl, inr}
pub use mathlib.Core.Bool.{Bool, true, false, ◌&&◌, ◌||◌}
pub use mathlib.Core.Option.{Option, none, some}
pub use mathlib.Core.List.{List, [], ◌∷◌, ◌++◌, append_assoc, append-nil}
pub use native.Mathlib.Omega.{arith}
