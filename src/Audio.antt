-- ===== src/Audio.antt =====
-- The audio side of the service: the buffers that stand between ffmpeg and the request.
pub mod Buffers
pub mod Reading
pub mod Writing
pub mod Pipeline
