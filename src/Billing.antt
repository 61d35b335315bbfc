-- ===== src/Billing.antt =====
-- The billing vocabulary and policy: core/types/persistence/credit.persistence.ts and
-- config/billing.config.ts.
pub mod Types
pub mod Config
