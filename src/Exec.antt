-- ===== src/Exec.antt =====
-- Go methods that may return an error and may change state before they do: the state comes back
-- beside the error too.
mod Defs
pub mod Keeps
pub mod Brings
pub mod Ends
pub mod Outcomes
pub mod Errors
pub use Defs.{Result, ok, err, Exec, is_ok, recode_by, Result-cases}
unfoldable pub use Defs.{pure, fail, fail_with, ignore, when, ◌>>=◌}
unfoldable pub use Defs.{◌>>◌}
