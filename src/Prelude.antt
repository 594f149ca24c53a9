-- ===== src/Prelude.antt =====
-- The names that the other modules share: the libraries', passed on, and those of the children
-- (Boolean tests, equality as an interface, lists, Go's sets and maps, signed integers).
mod Tests
mod Equality
mod Lists
mod Sets
mod Maps
mod Keys
mod Int
mod Results
pub use Tests.*
pub use Equality.*
pub use Lists.*
unfoldable pub use Sets.{contains, add, remove, Distinct}
pub use Sets.{
  contains-add, contains-remove, contains-append, Distinct-snoc, Distinct-add, Distinct-remove,
  length-add, length-remove, remove_fresh,
}
unfoldable pub use Maps.{Map, lookup, put, delete, keys}
pub use Keys.{
  contains-keys-put, Distinct-keys-put, contains-keys-delete, Distinct-keys-delete, lookup_absent,
}
pub use Maps.{lookup-put, lookup-delete, lookup-put_self}
pub use Int.{ℤ, pos, negsuc, ltb_ℤ, eq_ℤ, eq_ℤ_iff, sub_ℕ, int64_mod, wrap_int64}
pub use Results.{Result, ok, err, ◌>>=◌, bind-ok}
pub use Prim.Native.Nat.{ℕ, zero, suc, ◌+◌, ◌-◌, ◌*◌, ◌/◌, ◌%◌, ◌≤◌, ◌<◌, min}
pub use Prim.Native.String.{String}
pub use mathlib.Core.Path.{◌≡◌, refl, sym, ap, ◌∙◌}
pub use mathlib.Core.Logic.{◌≢◌, ◌↔◌, ◌⊎◌, inl, inr}
pub use mathlib.Core.Bool.{Bool, true, false, ◌&&◌, ◌||◌, not}
pub use mathlib.Core.Option.{Option, none, some}
pub use mathlib.Core.List.{List, [], ◌∷◌, ◌++◌, map}
pub use native.Mathlib.Omega.{arith}
unfoldable pub use native.Mathlib.Decide.{dec_lt}
