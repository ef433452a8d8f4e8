-- ===== src/Http.antt =====
-- server/http_srv.cpp: the web server. Request reads a request, Files finds and caches files,
-- Serve answers requests and reads them from a connection.
pub mod Request
pub mod Files
pub mod Serve
pub mod Framing
pub mod Caching
pub mod Parsing
pub mod Answers
pub mod Reading
pub mod Java
