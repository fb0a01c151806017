-- ===== src/Fetching.antt =====
-- src/huntloop/fetching: what may be fetched.
pub mod UrlGuard
