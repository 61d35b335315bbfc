-- ===== src/Credit.antt =====
-- The credit system: src/infra/repositories/CreditRepositoryPrisma.ts and
-- src/core/services/CreditService.ts.
pub mod Tables
pub mod Repository
pub mod Ledger
pub mod Invariant
pub mod Workers
pub mod Charges
pub mod Settlement
pub mod Faults
pub mod Guarantees
pub mod Refill
pub mod Sweep
pub mod Outcomes
pub mod Renewal
pub mod CycleRefill
pub mod Service
