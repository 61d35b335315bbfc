-- ===== src/Webhook/Processing.antt =====
-- src/core/services/WebhookProcessingService.ts. `policy` is `billingConfig.operationPolicy`.
use graph_node_be.Subscription.Repository.{
  create_payment, find_by_user_id, find_active_by_user_id, create, update_event_status,
  find_pending_by_user_id, update_status,
}
use Prim.Native.String.{◌++◌}
use graph_node_be.Store.Json.{Json}
use graph_node_be.Common.{
  if◌then◌else◌, ℕ, Bool, true, false, ◌&&◌, Option, none, some, String, ltb, ◌+◌,
}
use graph_node_be.Common.Int.{ltb_ℤ, ℤ, pos}
use graph_node_be.Billing.Types.{
  plan_eq, SubscriptionStatus, PaymentStatus, WebhookEventStatus, WebhookEventType, free,
}
use graph_node_be.Billing.Config.{BillingOperationPolicy, CreditClawback, days_ms}
use graph_node_be.Store.Effects.{Action, pure, catch, ◌>>=◌, ◌>>◌}
use graph_node_be.Store.Rows.{PaymentHistoryRow, SubscriptionRow, WebhookEventRow}
use graph_node_be.Subscription.Tables.{status_eq, StatusUpdate, first_with}
use graph_node_be.Subscription.Service.{free_subscription, duration_days}
use graph_node_be.Credit.Service.{refill, refund, ignore}
use graph_node_be.Webhook.Payload.{extract_user_id, user_of, extract_amount}

-- What a run of `process` reads from outside: the clock, and the ids that are made on the way.
pub record Readings : Type 0 where
  pub free_start : ℕ
  pub refilled : ℕ
  pub grace_from : ℕ
  pub canceled_at : ℕ
  pub processed_at : ℕ
  pub new_id : String
  pub new_key : String

abbrev pub status_only : String → SubscriptionStatus → StatusUpdate
status_only id s = record { id = id; status = s; canceled_at = none; current_period_end = none }

abbrev pub first_or_scan :
    SubscriptionStatus → Option SubscriptionRow → String → Action (Option SubscriptionRow)
first_or_scan s (some row) u = pure (some row)
first_or_scan s none u = do all ← find_by_user_id u; pure (first_with s all)

abbrev pub existing_or_create : Option SubscriptionRow → String → Readings → Action SubscriptionRow
existing_or_create (some s) u r = pure s
existing_or_create none u r = create (free_subscription r.new_id u r.free_start)

-- The private `createFreeSubscription`.
unfoldable pub create_free : String → Readings → Action SubscriptionRow
create_free u r = do existing ← find_active_by_user_id u; existing_or_create existing u r

-- `createFreeSubscription` and `refill` of the FREE plan: the end of three handlers.
abbrev pub downgrade : String → Readings → Action (Unit {0})
downgrade u r = do create_free u r; refill u free r.refilled

abbrev pub for_user : WebhookEventRow → (String → Action (Unit {0})) → Action (Unit {0})
for_user event handler = do
  value ← extract_user_id event.raw_payload
  found ← user_of value
  elim found [ none ↦ pure tt | some u ↦ handler u ]

module _ (convert : Json → Option ℤ) (policy : BillingOperationPolicy) where
  abbrev pub payment_of :
      WebhookEventRow → String → String → PaymentStatus → String → ℤ → PaymentHistoryRow
  payment_of event u subscription_id status key amount = record {
    user_id = u;
    subscription_id = subscription_id;
    amount = amount;
    status = status;
    pg_provider = event.provider;
    idempotency_key = key;
  }

  -- A payment is recorded where its amount is positive; NaN is not.
  abbrev pub record_amount : Option ℤ → (ℤ → PaymentHistoryRow) → Action (Unit {0})
  record_amount none p = pure tt
  record_amount (some amount) p =
      if ltb_ℤ (pos 0) amount then create_payment (p amount) else pure tt

  abbrev pub record_payment :
      WebhookEventRow → String → String → PaymentStatus → String → Action (Unit {0})
  record_payment event u subscription_id status key =
      record_amount (extract_amount convert event.raw_payload)
        (payment_of event u subscription_id status key)

  abbrev pub renew : Option SubscriptionRow → WebhookEventRow → String → Action (Unit {0})
  renew none event u = pure tt
  renew (some active) event u = do
    update_status (record {
      id = active.id;
      status = SubscriptionStatus.active;
      canceled_at = none;
      current_period_end =
          some (active.current_period_end + days_ms (duration_days active.billing_cycle));
    })
    record_payment event u active.id PaymentStatus.success (event.idempotency_key ++ "-renew")

  unfoldable pub handle_subscription_renewed : WebhookEventRow → Action (Unit {0})
  handle_subscription_renewed event =
      for_user event (λ u. do active ← find_active_by_user_id u; renew active event u)

  abbrev pub activate :
      Option SubscriptionRow → WebhookEventRow → Readings → String → Action (Unit {0})
  activate none event r u = handle_subscription_renewed event
  activate (some s) event r u = do
    update_status (status_only s.id SubscriptionStatus.active)
    record_payment event u s.id PaymentStatus.success event.idempotency_key
    refill u s.plan_type r.refilled

  unfoldable pub handle_payment_completed : WebhookEventRow → Readings → Action (Unit {0})
  handle_payment_completed event r = for_user event (λ u. do
    first ← find_pending_by_user_id u
    pending_subscription ← first_or_scan SubscriptionStatus.pending first u
    activate pending_subscription event r u)

  -- `current && current.status !== 'EXPIRED'`
  abbrev pub expire_unless_expired : Option SubscriptionRow → Action (Unit {0})
  expire_unless_expired none = pure tt
  expire_unless_expired (some s) =
      if status_eq s.status SubscriptionStatus.expired
      then pure tt
      else do update_status (status_only s.id SubscriptionStatus.expired); pure tt

  unfoldable pub handle_subscription_canceled : WebhookEventRow → Readings → Action (Unit {0})
  handle_subscription_canceled event r = for_user event (λ u. do
    active ← find_active_by_user_id u
    current ← first_or_scan SubscriptionStatus.canceled active u
    expire_unless_expired current
    downgrade u r)

  abbrev pub grace_or_downgrade : Bool → SubscriptionRow → String → Readings → Action (Unit {0})
  grace_or_downgrade true s u r = do
    update_status (record {
      id = s.id;
      status = SubscriptionStatus.canceled;
      canceled_at = some r.canceled_at;
      current_period_end = some (r.grace_from + days_ms policy.grace_days);
    })
    pure tt
  grace_or_downgrade false s u r = do
    update_status (status_only s.id SubscriptionStatus.expired)
    downgrade u r

  abbrev pub fail_payment :
      Option SubscriptionRow → WebhookEventRow → Readings → String → Action (Unit {0})
  fail_payment none event r u = downgrade u r
  fail_payment (some s) event r u = do
    record_payment event u s.id PaymentStatus.failed r.new_key
    grace_or_downgrade (policy.grace_enabled && ltb 0 policy.grace_days) s u r

  unfoldable pub handle_payment_failed : WebhookEventRow → Readings → Action (Unit {0})
  handle_payment_failed event r =
      for_user event (λ u. do current ← find_active_by_user_id u; fail_payment current event r u)

  -- `current && current.planType !== PlanType.FREE`
  abbrev pub record_refund : Option SubscriptionRow → WebhookEventRow → String → Action (Unit {0})
  record_refund none event u = pure tt
  record_refund (some s) event u = if plan_eq s.plan_type free then pure tt else do
    update_status (status_only s.id SubscriptionStatus.expired)
    record_payment event u s.id PaymentStatus.refunded (event.idempotency_key ++ "-refund")

  abbrev pub claw_back : CreditClawback → String → Action (Unit {0})
  claw_back CreditClawback.all_granted_credits u = refund u (pos 0)
  claw_back _ u = pure tt

  unfoldable pub handle_payment_refunded : WebhookEventRow → Readings → Action (Unit {0})
  handle_payment_refunded event r = for_user event (λ u. do
    current ← find_active_by_user_id u
    record_refund current event u
    create_free u r
    claw_back policy.refund_credit_clawback u
    refill u free r.refilled)

  abbrev pub dispatch : WebhookEventType → WebhookEventRow → Readings → Action (Unit {0})
  dispatch WebhookEventType.payment_completed event r = handle_payment_completed event r
  dispatch WebhookEventType.payment_ready event r = pure tt
  dispatch WebhookEventType.webhook_ignored event r = pure tt
  dispatch WebhookEventType.subscription_renewed event r = handle_subscription_renewed event
  dispatch WebhookEventType.subscription_canceled event r = handle_subscription_canceled event r
  dispatch WebhookEventType.payment_failed event r = handle_payment_failed event r
  dispatch WebhookEventType.payment_refunded event r = handle_payment_refunded event r

  abbrev pub run_event : WebhookEventRow → Readings → Action (Unit {0})
  run_event event r =
      catch
        (do
          dispatch event.event_type event r
          update_event_status event.id WebhookEventStatus.processed (some r.processed_at))
        (λ e. catch (update_event_status event.id WebhookEventStatus.failed none) (ignore tt))

  abbrev pub unless_processed : WebhookEventStatus → Action (Unit {0}) → Action (Unit {0})
  unless_processed WebhookEventStatus.processed m = pure tt
  unless_processed WebhookEventStatus.received m = m
  unless_processed WebhookEventStatus.failed m = m

  unfoldable pub process : WebhookEventRow → Readings → Action (Unit {0})
  process event r = unless_processed event.status (run_event event r)
