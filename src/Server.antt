-- ===== src/Server.antt =====
-- examples/server/server.c: a web server whose pages are rows of the file that it was started from.
pub mod Buffer
pub mod Button
pub mod Render
pub mod Http
pub mod Request
pub mod Database
pub mod Json
pub mod Handle
pub mod Worker
pub mod Pool
pub mod Start
