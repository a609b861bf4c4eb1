-- ===== src/Providers.antt =====
-- packages/providers: the model providers behind the runtime.
pub mod Router
