-- ===== src/Sys.antt =====
-- The operating system and the C library as the programs of c_projects see them. A call is recorded
-- in a history, and its answer is a function of the history up to and including it, so that
-- every behaviour of the kernel, of the network and of other processes is one choice of `answer`.
mod Calls
mod Monad
pub mod Descriptors
pub mod Sample
pub mod Stops
pub mod Trace
unfoldable pub use Calls.*
pub use Monad.*
