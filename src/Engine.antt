-- ===== src/Engine.antt =====
-- The ingestion engine, the frame capturer that is written in Go (microservices/frame_capturer).
pub mod Zone
pub mod Config
pub mod Motion
pub mod Overlay
pub mod Snapshot
pub mod Pipeline
pub mod Capture
pub mod Loop
mod Tests
pub mod Broker
