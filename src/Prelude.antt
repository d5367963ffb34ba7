-- ===== src/Prelude.antt =====
-- The names that the other modules share: the libraries', passed on, and those of the children.
pub mod Tests
pub mod Lists
pub mod Errors
pub mod Words
pub mod Int
pub mod Bits
pub use Tests.*
pub use Lists.*
unfoldable pub use Errors.{◌>>=◌, ◌>>◌, fail_if, ok_or, plumbing}
pub use Errors.{
  ForensisError, io, unknown_filesystem, unsupported_filesystem, invalid_partition,
  invalid_boot_sector, file_not_found, directory_not_found, generic, invalid_format, Result, ok,
  err, panic, Holds, Holds-ok, Holds-err, Holds-if, Holds-fail_if, Holds-weaken, Holds-bind,
  Holds-ok_or, Holds-some, >>=-cong, >>=-eq-ok, ok_inj, >>-eq-ok, fail_if-eq-ok,
}
pub use Words.*
pub use Prim.Native.Nat.{ℕ, zero, suc, ◌+◌, ◌-◌, ◌*◌, ◌/◌, ◌%◌, ◌^◌, ◌≤◌, ◌<◌, min}
pub use Prim.Native.String.{String}
pub use mathlib.Core.Path.{◌≡◌, refl, sym, ap, ◌∙◌}
pub use mathlib.Core.Logic.{◌≢◌, ◌↔◌, ◌⊎◌, inl, inr}
pub use mathlib.Core.Bool.{Bool, true, false, not, ◌&&◌, ◌||◌}
pub use mathlib.Core.Option.{Option, none, some}
pub use mathlib.Core.List.{List, [], ◌∷◌, ◌++◌, map}
pub use native.Mathlib.Omega.{arith}
