-- ===== src/Sketch.antt =====
-- The sketches under examples/, which use the library through the class's methods.
pub mod TestClient
pub mod Pacing
pub mod Bridge0
pub mod PahoClient
