-- ===== src/Session.antt =====
-- miniftpd/session.h and miniftpd/session.c: the session of the process that talks to the client,
-- and the state and failure monad that its commands run in.
mod Monad
pub mod Kernel
pub mod Invariant
unfoldable pub use Monad.*
