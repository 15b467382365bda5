-- ===== src/Worker/Files.antt =====
-- internal/runtime/files.go and files_shell.go, internal/worker/files.go and files_fs.go: the files of a
-- running sandbox.
pub mod Paths
pub mod Splitting
pub mod Resolved
pub mod Written
pub mod Base64
pub mod Shell
pub mod Trailer
pub mod ReadBack
pub mod Commands
pub mod Calls
pub mod Listed
pub mod RoundTrip
mod Tests
mod ShellTests
mod CallTests
