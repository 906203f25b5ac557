-- ===== src/Middleware.antt =====
-- src/middleware: what runs in front of the routes.
pub mod AdminAuth
