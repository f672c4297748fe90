-- ===== src/Prelude/Exec.antt =====
-- Methods that change an object and may raise. What was written before a raise stays written, so
-- the state comes back beside the exception too.
mod Defs
mod Rules
mod Triples
pub use Rules.*
pub use Triples.*
pub use Defs.{
  Exc, value_error, os_error, timeout_error, http_error, key_error, type_error, attribute_error,
  integrity_error, operational_error, mysql_error, broken_barrier_error, lock_not_available,
  postgres_operational, postgres_error, other_error, Result, ok, err, and_then, concluded,
}
unfoldable pub use Defs.{
  Exec, pure, raise, lift, gets, modify, catch, ensure, continue, recover_from, ◌>>=◌, ◌>>◌,
}
