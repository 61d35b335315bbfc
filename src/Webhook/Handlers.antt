-- ===== src/Webhook/Handlers.antt =====
-- Every handler of WebhookProcessingService keeps what stands aside of it.
use graph_node_be.Subscription.Tables.{StatusUpdate, status_eq}
use graph_node_be.Subscription.Repository.{
  create_payment, update_status, find_active_by_user_id, find_pending_by_user_id,
}
use graph_node_be.Webhook.Payload.{extract_amount}
use graph_node_be.Common.{◌&&◌, if◌then◌else◌, Option, none, some, String, Bool, true, false, ltb}
use graph_node_be.Common.Int.{ℤ, pos, ltb_ℤ}
use graph_node_be.Billing.Types.{PaymentStatus, WebhookEventType, SubscriptionStatus, free, plan_eq}
use graph_node_be.Billing.Config.{BillingOperationPolicy, CreditClawback}
use graph_node_be.Store.Json.{Json}
use graph_node_be.Store.Rows.{PaymentHistoryRow, Database, SubscriptionRow, WebhookEventRow}
use graph_node_be.Store.Effects.{◌>>◌, Action, pure}
use graph_node_be.Store.Preserves.{Preserves, pure-Preserves, bind-Preserves, then-Preserves}
use graph_node_be.Webhook.Processing.{
  record_amount, first_or_scan, downgrade, create_free, grace_or_downgrade, fail_payment,
  handle_payment_completed, handle_payment_failed, handle_payment_refunded, claw_back,
  record_refund, handle_subscription_canceled, handle_subscription_renewed, expire_unless_expired,
  Readings, dispatch, record_payment, renew, activate,
}
use graph_node_be.Webhook.Frame.{
  IsAside, for_user-Keeps, find_active-Keeps, find_pending-Keeps, update_status-Keeps,
  create_payment-Keeps, create_free-Keeps, downgrade-Keeps, first_or_scan-Keeps,
}

module _ {I : Database → Type 0} (aside : IsAside I) where
  pay_if-Keeps :
      (b : Bool) (m : Action (Unit {0})) → Preserves I m → Preserves I (if b then m else pure tt)
  pay_if-Keeps true m keeps = keeps
  pay_if-Keeps false m keeps = pure-Preserves tt

  module _ (convert : Json → Option ℤ) (policy : BillingOperationPolicy) where
    record_amount-Keeps :
        (amount : Option ℤ) (p : ℤ → PaymentHistoryRow)
        → Preserves I (record_amount convert policy amount p)
    record_amount-Keeps none p = pure-Preserves tt
    record_amount-Keeps (some n) p =
        pay_if-Keeps (ltb_ℤ (pos 0) n) (create_payment (p n)) (create_payment-Keeps aside (p n))

    record_payment-Keeps :
        (event : WebhookEventRow) (u id : String) (s : PaymentStatus) (key : String)
        → Preserves I (record_payment convert policy event u id s key)
    record_payment-Keeps event u id s key =
        record_amount-Keeps (extract_amount convert event.raw_payload) _

    renew-Keeps :
        (o : Option SubscriptionRow) (event : WebhookEventRow) (u : String)
        → Preserves I (renew convert policy o event u)
    renew-Keeps none event u = pure-Preserves tt
    renew-Keeps (some s) event u =
        then-Preserves (update_status _) _ (update_status-Keeps aside _)
          (record_payment-Keeps event u s.id _ _)

    renewed-Keeps :
        (event : WebhookEventRow) → Preserves I (handle_subscription_renewed convert policy event)
    unfolding handle_subscription_renewed
    renewed-Keeps event = for_user-Keeps aside event _ (λ u.
        bind-Preserves (find_active_by_user_id u) _ (find_active-Keeps aside u)
          (λ o. renew-Keeps o event u))

    activate-Keeps :
        (o : Option SubscriptionRow) (event : WebhookEventRow) (r : Readings) (u : String)
        → Preserves I (activate convert policy o event r u)
    activate-Keeps none event r u = renewed-Keeps event
    activate-Keeps (some s) event r u =
        then-Preserves (update_status _) _ (update_status-Keeps aside _) (
          then-Preserves (record_payment convert policy event u s.id _ _) _
            (record_payment-Keeps event u s.id _ _) (aside.refill_keeps u s.plan_type r.refilled))

    completed-Keeps :
        (event : WebhookEventRow) (r : Readings)
        → Preserves I (handle_payment_completed convert policy event r)
    unfolding handle_payment_completed
    completed-Keeps event r = for_user-Keeps aside event _ (λ u.
        bind-Preserves (find_pending_by_user_id u) _ (find_pending-Keeps aside u) (λ first.
          bind-Preserves (first_or_scan SubscriptionStatus.pending first u) _
            (first_or_scan-Keeps aside SubscriptionStatus.pending first u)
            (λ o. activate-Keeps o event r u)))

    expire_if-Keeps :
        (b : Bool) (dto : StatusUpdate)
        → Preserves I (if b then pure tt else (update_status dto >> pure tt))
    expire_if-Keeps true dto = pure-Preserves tt
    expire_if-Keeps false dto =
        then-Preserves (update_status dto) (pure tt) (update_status-Keeps aside dto)
          (pure-Preserves tt)

    expire-Keeps :
        (o : Option SubscriptionRow) → Preserves I (expire_unless_expired convert policy o)
    expire-Keeps none = pure-Preserves tt
    expire-Keeps (some s) = expire_if-Keeps (status_eq s.status SubscriptionStatus.expired) _

    canceled-Keeps :
        (event : WebhookEventRow) (r : Readings)
        → Preserves I (handle_subscription_canceled convert policy event r)
    unfolding handle_subscription_canceled
    canceled-Keeps event r = for_user-Keeps aside event _ (λ u.
        bind-Preserves (find_active_by_user_id u) _ (find_active-Keeps aside u) (λ active.
          bind-Preserves (first_or_scan SubscriptionStatus.canceled active u) _
            (first_or_scan-Keeps aside SubscriptionStatus.canceled active u)
            (λ o.
              then-Preserves (expire_unless_expired convert policy o) (downgrade u r)
                (expire-Keeps o) (downgrade-Keeps aside u r))))

    grace-Keeps :
        (b : Bool) (s : SubscriptionRow) (u : String) (r : Readings)
        → Preserves I (grace_or_downgrade convert policy b s u r)
    grace-Keeps true s u r =
        then-Preserves (update_status _) (pure tt) (update_status-Keeps aside _) (pure-Preserves tt)
    grace-Keeps false s u r =
        then-Preserves (update_status _) (downgrade u r) (update_status-Keeps aside _)
          (downgrade-Keeps aside u r)

    fail-Keeps :
        (o : Option SubscriptionRow) (event : WebhookEventRow) (r : Readings) (u : String)
        → Preserves I (fail_payment convert policy o event r u)
    fail-Keeps none event r u = downgrade-Keeps aside u r
    fail-Keeps (some s) event r u =
        then-Preserves (record_payment convert policy event u s.id _ _) _
          (record_payment-Keeps event u s.id _ _)
          (grace-Keeps (policy.grace_enabled && ltb 0 policy.grace_days) s u r)

    failed-Keeps :
        (event : WebhookEventRow) (r : Readings)
        → Preserves I (handle_payment_failed convert policy event r)
    unfolding handle_payment_failed
    failed-Keeps event r = for_user-Keeps aside event _ (λ u.
        bind-Preserves (find_active_by_user_id u) _ (find_active-Keeps aside u)
          (λ o. fail-Keeps o event r u))

    refund_if-Keeps :
        (b : Bool) (dto : StatusUpdate) (m : Action (Unit {0}))
        → Preserves I m
        → Preserves I (if b then pure tt else (update_status dto >> m))
    refund_if-Keeps true dto m keeps = pure-Preserves tt
    refund_if-Keeps false dto m keeps =
        then-Preserves (update_status dto) m (update_status-Keeps aside dto) keeps

    record_refund-Keeps :
        (o : Option SubscriptionRow) (event : WebhookEventRow) (u : String)
        → Preserves I (record_refund convert policy o event u)
    record_refund-Keeps none event u = pure-Preserves tt
    record_refund-Keeps (some s) event u =
        refund_if-Keeps (plan_eq s.plan_type free) _ _ (record_payment-Keeps event u s.id _ _)

    claw_back-Keeps : (c : CreditClawback) (u : String) → Preserves I (claw_back convert policy c u)
    claw_back-Keeps CreditClawback.all_granted_credits u = aside.refund_keeps u
    claw_back-Keeps CreditClawback.keep_credits u = pure-Preserves tt
    claw_back-Keeps CreditClawback.refund_period_credits u = pure-Preserves tt

    refunded-Keeps :
        (event : WebhookEventRow) (r : Readings)
        → Preserves I (handle_payment_refunded convert policy event r)
    unfolding handle_payment_refunded
    refunded-Keeps event r = for_user-Keeps aside event _ (λ u.
        bind-Preserves (find_active_by_user_id u) _ (find_active-Keeps aside u) (λ o.
          then-Preserves (record_refund convert policy o event u) _ (record_refund-Keeps o event u)
            (then-Preserves (create_free u r) _ (create_free-Keeps aside u r) (
              then-Preserves (claw_back convert policy policy.refund_credit_clawback u) _
                (claw_back-Keeps policy.refund_credit_clawback u)
                (aside.refill_keeps u free r.refilled)))))

    pub dispatch-Keeps :
        (t : WebhookEventType) (event : WebhookEventRow) (r : Readings)
        → Preserves I (dispatch convert policy t event r)
    dispatch-Keeps WebhookEventType.payment_completed event r = completed-Keeps event r
    dispatch-Keeps WebhookEventType.payment_ready event r = pure-Preserves tt
    dispatch-Keeps WebhookEventType.webhook_ignored event r = pure-Preserves tt
    dispatch-Keeps WebhookEventType.subscription_renewed event r = renewed-Keeps event
    dispatch-Keeps WebhookEventType.subscription_canceled event r = canceled-Keeps event r
    dispatch-Keeps WebhookEventType.payment_failed event r = failed-Keeps event r
    dispatch-Keeps WebhookEventType.payment_refunded event r = refunded-Keeps event r
