-- ===== src/Detector.antt =====
-- The human detector (microservices/human_detector/human_detector.py).
pub mod Dispatcher
pub mod Publisher
pub mod Frames
pub mod Idle
pub mod Start
mod Tests
