-- ===== src/Prelude.antt =====
-- The names that the other modules share: the libraries', passed on, and those of the children.
mod Tests
mod Lists
mod Dicts
mod Texts
pub mod Stops
pub mod Exec
pub use Tests.*
pub use Texts.{codes, is_hex, is_space, join, take_text, length-take_text, Arg, ℤ, pos, negsuc}
unfoldable pub use Texts.{is_run_id}
pub use Lists.{
  length, get_elem?, drop, length-append, length-drop, length-last_n, all, any, keep_if,
  length-keep_if, is_some, member,
}
unfoldable pub use Lists.{last_n}
pub use Dicts.{Dict, find-put, find-remove, dict_laws}
unfoldable pub use Dicts.{find, put, remove, update}
pub use Prim.Native.Nat.{ℕ, zero, suc, ◌+◌, ◌-◌, ◌*◌, ◌/◌, ◌%◌, ◌≤◌, ◌<◌, min, max}
pub use Prim.Native.String.{String}
pub use mathlib.Core.Path.{◌≡◌, refl, sym, ap, ◌∙◌, subst}
pub use mathlib.Core.Logic.{◌≢◌, ◌↔◌, ◌⊎◌, inl, inr}
pub use mathlib.Core.Bool.{Bool, true, false, not, ◌&&◌, ◌||◌}
pub use mathlib.Core.Option.{Option, none, some}
pub use mathlib.Core.List.{List, [], ◌∷◌, ◌++◌, map}
pub use native.Mathlib.Omega.{arith}
pub use text.Mathlib.Text.{◌==◌ as str_eq}
pub use text.Mathlib.TextEquality.{eq_iff}
