-- ===== src/Middleware.antt =====
-- api/internal/middleware: the guards that the router puts before the handlers.
pub mod StreamToken
pub mod ClientIp
pub mod RateLimit
pub mod Access
mod Examples
