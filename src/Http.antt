-- ===== src/Http.antt =====
-- internal/worker/httpapi: the HTTP API of a worker, its server and its client.
pub mod Wire
pub mod Server
pub mod Files
pub mod Client
pub mod FileClient
pub mod Retrying
pub mod Numbers
pub mod Loopback
mod Tests
mod LoopbackTests
