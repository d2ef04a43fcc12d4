-- ===== src/Detection.antt =====
-- The compression detection application: the sender of packet trains, its payloads, and the verdict.
pub mod Client
pub mod Detector
pub mod Config
pub mod Sockets
pub mod Server
pub mod Experiment
mod Tests
