-- ===== src/Tests.antt =====
-- Concrete runs.
mod Encoding
mod Uploads
mod Audio
mod Workers
mod Threads
mod Server
mod Service
mod Process
mod Processor
mod Pipeline
mod Models
mod Content
mod Handlers
mod Login
mod Dispatching
