-- ===== src/Base.antt =====
-- The names that the other modules share: the libraries', passed on, and those of the children.
pub mod Tests
pub mod Lists
pub mod Errors
pub mod Maps
pub mod Texts
pub mod Numbers
pub use Tests.{
  ltb, leb, nat_beq, nat_beq_iff, if◌then◌else◌, Keyed, ◌==◌, nat_keyed, string_keyed, Bool-cases,
  Option-cases, same_refl,
}
pub use Lists.{
  length, take, drop, any, select, count_if, All, length-append, length-select-le, length-take,
  length-drop, take-append-drop, any-append, any-Perm, any-Permᴰ, contains,
}
pub use Errors.{
  Error, not_found, message, errorf, wrapped, Result, ok, err, ◌>>=◌, ◌>>◌, is_not_found, result,
  guard, Result-cases,
}
pub use Maps.{get, put, without, get-put, get-without}
unfoldable pub use Texts.{cut_bar, split_n}
pub use Texts.{unbarred, ◌bar◌, split_n-bar, split_two, split_three}
pub use Prim.Native.Nat.{ℕ, zero, suc, ◌+◌, ◌-◌, ◌*◌, ◌/◌, ◌%◌, ◌^◌, ◌≤◌, ◌<◌, min}
pub use Prim.Native.String.{String}
pub use mathlib.Core.Path.{◌≡◌, refl, sym, ap, ◌∙◌}
pub use mathlib.Core.Logic.{◌≢◌, ◌↔◌, ◌⊎◌, inl, inr}
pub use mathlib.Core.Bool.{Bool, true, false, ◌&&◌, ◌||◌, not}
pub use mathlib.Core.Option.{Option, none, some}
pub use mathlib.Core.List.{List, [], ◌∷◌, ◌++◌, map, reverse}
pub use native.Mathlib.Omega.{arith}
pub use text.Mathlib.TextEquality.{eq_iff}
