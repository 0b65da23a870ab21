-- ===== src/AuthRedis.antt =====
-- redis/auth-redis.service.ts
pub mod Scripts
pub mod Sweeps
pub mod Sessions
pub mod Counters
pub mod Tickets
pub mod Claims
