-- ===== src/Server.antt =====
-- The studio's HTTP server (studio/handlers.go), as far as the client's URLs reach.
pub mod Unescape
pub mod Route
pub mod Query
