-- ===== src/Subscription.antt =====
-- Subscriptions: src/infra/repositories/SubscriptionRepository.ts, PaymentHistoryRepository.ts and
-- WebhookEventRepository.ts, and src/core/services/SubscriptionService.ts.
pub mod Tables
pub mod Repository
pub mod Service
pub mod Lifecycle
pub mod Grants
