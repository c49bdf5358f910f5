-- ===== src/Capturer.antt =====
-- The frame capturer (microservices/frame_capturer/frame_capturer.py): the hours in which it runs,
-- the pipe that it reads frames from, and the loop that sends the frames with motion.
pub mod Window
pub mod Pipe
pub mod Loop
pub mod Payload
mod Tests
