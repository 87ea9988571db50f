-- ===== src/Http.antt =====
-- The HTTP side of the service: workers, work threads and the acceptor.
pub mod Worker
pub mod Threads
pub mod Server
pub mod Response
pub mod Process
