-- ===== src/Middleware.antt =====
-- internal/middleware: the limiter, the address filter, the size limit, the security
-- headers, and the order of a chain.
pub mod RateLimit
pub mod IpFilter
pub mod SizeLimit
pub mod Chain
pub mod Security
pub mod Exchange
pub mod Logging
pub mod Recovery
