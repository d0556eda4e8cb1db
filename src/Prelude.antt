-- ===== src/Prelude.antt =====
-- The names that every module shares: the libraries', passed on, the Boolean tests and the
-- conditional, and Go's maps and lists.
pub mod Tests
pub mod Lists
pub mod Maps
pub mod Perms
pub use Tests.*
pub use Lists.*
unfoldable pub use Maps.{get, put, delete}
pub use Maps.{
  get-put_self, get-put_ne, get-delete_ne, get-delete_self, delete_absent, delete-put_new, put_new,
  get-put, get-delete,
}
pub use Perms.*
pub use Prim.Native.Nat.{ℕ, zero, suc, ◌+◌, ◌-◌, ◌*◌, ◌/◌, ◌%◌, ◌^◌, ◌≤◌, ◌<◌}
pub use mathlib.Core.Path.{◌≡◌, refl, sym, ap, ap₂, subst, ◌∙◌}
pub use mathlib.Core.Logic.{◌≢◌, ◌↔◌, ◌⊎◌, inl, inr}
pub use mathlib.Core.Bool.{Bool, true, false, ◌&&◌, ◌||◌, not}
pub use mathlib.Core.Option.{Option, none, some}
pub use mathlib.Core.List.{List, [], ◌∷◌, ◌++◌, map, append-nil, append_assoc}
pub use native.Mathlib.Omega.{arith}
unfoldable pub use native.Mathlib.Decide.{dec_lt, ℕ_discrete}
