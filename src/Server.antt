-- ===== src/Server.antt =====
-- The server, which is written in Go: what the pages' requests come to.
pub mod System
pub mod Go
pub mod Table
pub mod Redis
pub mod Store
pub mod Http
pub mod Handlers
pub mod Middleware
pub mod Limiter
pub mod Routes
pub mod Config
pub mod Main
