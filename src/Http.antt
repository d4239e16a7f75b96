-- ===== src/Http.antt =====
-- httpserver/httpserver.c: the REST server.
pub mod Router
pub mod Handlers
pub mod Server
