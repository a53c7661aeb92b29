-- ===== src/World.antt =====
-- The world outside: the daemons, the file system, processes and the clock. Every call of it is a
-- request that is put on a trace, the newest in front, and what it answers is given by a `Host` from
-- the trace up to that request. So what is proved for every host holds whatever the world answers,
-- and what was asked, and in which order, can be read from the trace. Logging is left out.
mod Requests
mod Monad
pub mod Calls
pub mod Exec
pub use Requests.*
unfoldable pub use Monad.*
