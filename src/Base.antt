-- ===== src/Base.antt =====
-- The names that all the other files share: the libraries', passed on, Boolean tests and the
-- conditional (Base/Tests), lists measured by native numbers (Base/Lists), the unsigned arithmetic
-- of C++ and arrays that are read and written in place (Base/Memory).
mod Tests
mod Lists
mod Memory
pub use Tests.*
pub use Lists.*
unfoldable pub use Memory.{load_at, store_at, block}
pub use Memory.{
  u32, add32, sub32, slice, length-block, length-slice, load_at_ok, load_at_out, store_at_ok,
  store_at_out, length-store,
}
pub use Prim.Native.Nat.{ℕ, zero, suc, ◌+◌, ◌-◌, ◌*◌, ◌/◌, ◌%◌, ◌^◌, ◌≤◌, ◌<◌, min, bit_and}
pub use mathlib.Core.Path.{◌≡◌, refl, sym, ap, ap₂, subst, ◌∙◌, ◌≡⟨◌⟩◌, ◌∎}
pub use mathlib.Core.Logic.{◌≢◌, ◌↔◌, ◌⊎◌, inl, inr}
pub use mathlib.Core.Bool.{Bool, true, false, not, ◌&&◌, ◌||◌}
pub use mathlib.Core.Option.{Option, none, some}
pub use mathlib.Core.List.{List, [], ◌∷◌, ◌++◌, map, append-nil, append_assoc}
pub use native.Mathlib.Omega.{arith}
unfoldable pub use native.Mathlib.Decide.{dec_le, dec_lt, ℕ_discrete}
