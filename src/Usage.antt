-- ===== src/Usage.antt =====
-- The daily limit of AI chats: src/core/services/DailyUsageService.ts,
-- src/infra/repositories/DailyUsageRepositoryPrisma.ts and
-- src/core/types/persistence/usage.persistence.ts.
pub mod Repository
pub mod Service
pub mod Counting
