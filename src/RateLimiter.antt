-- ===== src/RateLimiter.antt =====
-- src/rate_limiter.py: token buckets, one for each client address.
pub mod Bucket
pub mod Registry
pub mod Threads
