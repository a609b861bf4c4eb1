-- ===== src/Platform.antt =====
-- packages/platform: what every component stands on.
pub mod RateLimit
