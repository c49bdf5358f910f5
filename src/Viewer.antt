-- ===== src/Viewer.antt =====
-- The viewer, microservices/viewer_service/viewer_service.py: session tokens and authentication, the
-- pages, the images of a camera, and the labels of the request counter.
pub mod Config
pub mod Session
pub mod Auth
pub mod Image
pub mod Pages
pub mod Endpoint
pub mod Listing
mod Tests
