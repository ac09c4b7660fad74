-- ===== src/Base.antt =====
-- Names and helpers shared by all modules: the libraries' numbers, lists and options, Boolean
-- tests, C arrays as lists, and the arithmetic of 32-bit words. No code of the kernel is here.
mod Tests
pub mod Lists
pub mod Bits
pub mod Word
pub mod Store
pub mod Int
pub use Tests.*
pub use Lists.*
pub use Word.*
pub use Store.*
unfoldable pub use Word.{round_down, round_up}
pub use Prim.Native.Nat.{ℕ, zero, suc, ◌+◌, ◌-◌, ◌*◌, ◌/◌, ◌%◌, ◌^◌, ◌≤◌, ◌<◌, min}
pub use Prim.Native.Nat.{bit_and, bit_or, bit_xor}
pub use mathlib.Core.Path.{◌≡◌, refl, sym, ap, ◌∙◌, subst, fun_ext}
pub use mathlib.Core.Logic.{◌≢◌, ◌↔◌, ◌⊎◌, inl, inr}
pub use mathlib.Core.Bool.{Bool, true, false, not, ◌&&◌, ◌||◌}
pub use mathlib.Core.Option.{Option, none, some}
pub use mathlib.Core.List.{List, [], ◌∷◌, ◌++◌, map, append-nil, append_assoc}
pub use native.Mathlib.Omega.{arith}
