-- ===== src/Middleware.antt =====
-- What stands around the handlers: the rate limit and the idempotency keys of apps/api/src/shared/middleware and the
-- coalescing of requests in apps/api/src/shared/services/redis/coalescing.rs.
pub mod RateLimit
pub mod Idempotency
pub mod Coalescing
mod Examples
