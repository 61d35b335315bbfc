-- ===== src/Webhook.antt =====
-- Webhooks of the payment providers: src/infra/payment/webhookEventResolver.ts,
-- src/app/controllers/WebhookController.ts and src/core/services/WebhookProcessingService.ts.
pub mod Resolver
pub mod Payload
pub mod Processing
pub mod Controller
pub mod Frame
pub mod Handlers
pub mod Outcome
pub mod Delivery
pub mod Payments
pub mod Credits
pub mod Upgrade
pub mod Paid
pub mod Downgrades
