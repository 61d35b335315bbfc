-- ===== src/Tests/Webhook.antt =====
-- The theorems on webhooks at concrete inputs.
use graph_node_be.Webhook.Downgrades.{
  subscription_canceled-downgrades, payment_refunded-downgrades, without, free_credits,
}
use graph_node_be.Webhook.Processing.{handle_subscription_canceled, handle_payment_refunded}
use graph_node_be.Subscription.Service.{free_subscription}
use graph_node_be.Webhook.Payload.{extract_amount}
use graph_node_be.Webhook.Resolver.{
  lookup, resolve_known_event_type, extract_raw_type, resolve_webhook_event_type,
}
use graph_node_be.Credit.Ledger.{outstanding_by}
use graph_node_be.Subscription.Tables.{
  update_subscription, find_event, find_payment, find_subscription, find_by_status,
}
use graph_node_be.Subscription.Service.{upgrade_plan}
use graph_node_be.Credit.Tables.{find_balance}
use graph_node_be.Common.{subst, arith, ◌≡◌, refl, true, false, none, some, [], ◌∷◌, ◌+◌}
use graph_node_be.Common.Int.{pos}
use graph_node_be.Billing.Types.{PgProvider, pro, BillingCycle, PaymentStatus, SubscriptionStatus}
use graph_node_be.Billing.Config.{
  billing_cycle_days, plan_credit_limits, BillingOperationPolicy, default_billing_operation_policy,
  days_ms,
}
use graph_node_be.Store.Rows.{Database, SubscriptionRow}
use graph_node_be.Store.Effects.{ok}
use graph_node_be.Credit.Sweep.{calm}
use graph_node_be.Webhook.Processing.{
  payment_of, status_only, process, handle_payment_completed, handle_payment_failed,
}
use graph_node_be.Webhook.Controller.{
  resolve_idempotency_key, key_candidate, provider_map, handle_webhook, duplicate, received,
}
use graph_node_be.Webhook.Delivery.{redeliver}
use graph_node_be.Webhook.Payments.{
  payments_after, payment_failed-grace, payment_completed-activates, payment_completed-extends,
}
use graph_node_be.Webhook.Upgrade.{upgrade_plan-outcome, requested, Upgraded}
use graph_node_be.Webhook.Paid.{upgrade_then_pay, active_rows}
use graph_node_be.Webhook.Credits.{IsSettled, process-IsSettled}
use graph_node_be.Tests.Data.{
  alice, empty_db, alice_db, free_row, pending_row, payload, paid_event, readings, request, nan,
}

abbrev policy : BillingOperationPolicy
policy = default_billing_operation_policy

redeliver_example :
    let (first, w1) = handle_webhook request (calm empty_db) in
    let w2 =
      (process nan policy paid_event readings
        (record { db = w1.db; faults = false ∷ true ∷ [] })).1 in
    let (second, w3) =
      handle_webhook (record request { now_text = "99"; new_id = "e2" }) (calm w2.db) in
    (first ≡ ok (received "e1" false, some paid_event))
    × (second ≡ ok (duplicate, none))
    × (w3.db ≡ w2.db)
unfolding provider_map key_candidate find_event resolve_webhook_event_type extract_raw_type
    resolve_known_event_type lookup resolve_idempotency_key
redeliver_example =
    redeliver nan policy request PgProvider.stripe payload "evt_1" "99" "e2" empty_db
      (false ∷ true ∷ []) readings refl refl refl refl refl refl

abbrev pending_db : Database
pending_db = record alice_db { subscriptions = pending_row ∷ [] }

abbrev active_db : Database
active_db = record alice_db { subscriptions = free_row ∷ [] }

payment_completed-activates_example :
    let (r, w) = handle_payment_completed nan policy paid_event readings (calm pending_db) in
    (r ≡ ok tt)
    × (w.db.subscriptions
        ≡ update_subscription (status_only "s2" SubscriptionStatus.active) pending_db.subscriptions)
    × (w.db.payments
        ≡ payments_after
            (extract_amount nan payload)
            (payment_of nan policy paid_event "alice" "s2" PaymentStatus.success
              paid_event.idempotency_key)
            [])
    × (find_balance "alice" w.db.balances
        ≡ some (record alice {
          balance = pos (plan_credit_limits pro);
          plan_type = pro;
          cycle_start = 61;
          cycle_end = 61 + days_ms billing_cycle_days;
        }))
unfolding find_by_status find_subscription find_payment find_balance
payment_completed-activates_example =
    payment_completed-activates nan policy "alice" paid_event readings pending_db pending_row alice
      (refl, refl) refl refl refl refl

payment_completed-extends_example :
    handle_payment_completed nan policy paid_event readings (calm active_db) ≡ (
      ok tt,
      calm (record active_db {
        subscriptions =
            update_subscription
              (record {
                id = "s1";
                status = SubscriptionStatus.active;
                canceled_at = none;
                current_period_end = some (100 + days_ms 30);
              })
              (free_row ∷ []);
        payments =
            payments_after
              (extract_amount nan payload)
              (payment_of nan policy paid_event "alice" "s1" PaymentStatus.success
                "STRIPE:invoice.paid:evt_1-renew")
              [];
      }),
    )
unfolding find_by_status find_subscription find_payment
payment_completed-extends_example =
    payment_completed-extends nan policy "alice" paid_event readings active_db free_row (refl, refl)
      refl refl refl refl

payment_failed-grace_example :
    handle_payment_failed nan policy paid_event readings (calm active_db) ≡ (
      ok tt,
      calm (record active_db {
        subscriptions =
            update_subscription
              (record {
                id = "s1";
                status = SubscriptionStatus.canceled;
                canceled_at = some 63;
                current_period_end = some (62 + days_ms 7);
              })
              (free_row ∷ []);
        payments =
            payments_after
              (extract_amount nan payload)
              (payment_of nan policy paid_event "alice" "s1" PaymentStatus.failed "k3")
              [];
      }),
    )
unfolding find_by_status find_subscription find_payment
payment_failed-grace_example =
    payment_failed-grace nan policy "alice" paid_event readings active_db free_row (refl, refl) refl
      refl refl refl

abbrev upgraded : SubscriptionRow
upgraded = requested "s2" "alice" pro BillingCycle.yearly "sub_2" none 51

only_row :
    (s : SubscriptionRow)
    → find_by_status SubscriptionStatus.active "alice" (free_row ∷ []) ≡ some s
    → find_subscription s.id (free_row ∷ []) ≡ some s
unfolding find_by_status find_subscription
only_row s e =
    let same : free_row ≡ s = ground arith in
    subst (λ x. find_subscription x.id (free_row ∷ []) ≡ some x) same refl

upgrade_plan-outcome_example :
    let (r, w) =
      upgrade_plan "s2" "alice" pro BillingCycle.yearly "sub_2" none 50 51 (calm active_db) in
    Upgraded upgraded 50 (some free_row) active_db r w.db
unfolding find_by_status find_subscription
upgrade_plan-outcome_example =
    upgrade_plan-outcome "s2" "alice" pro BillingCycle.yearly "sub_2" none 50 51 active_db only_row
      refl

upgrade_then_pay_example :
    let (asked, w1) =
      upgrade_plan "s2" "alice" pro BillingCycle.yearly "sub_2" none 50 51 (calm active_db) in
    let (paid, w2) = handle_payment_completed nan policy paid_event readings w1 in
    (asked ≡ ok upgraded)
    × (paid ≡ ok tt)
    × (active_rows "alice" w2.db.subscriptions
        ≡ record upgraded { status = SubscriptionStatus.active } ∷ [])
    × (find_balance "alice" w2.db.balances
        ≡ some (record alice {
          balance = pos (plan_credit_limits pro);
          plan_type = pro;
          cycle_start = 61;
          cycle_end = 61 + days_ms billing_cycle_days;
        }))
unfolding find_by_status find_subscription find_payment find_balance active_rows
upgrade_then_pay_example =
    upgrade_then_pay nan policy "s2" "alice" pro BillingCycle.yearly "sub_2" none 50 51 active_db
      free_row paid_event readings alice refl refl refl refl refl (refl, refl) refl refl

settled : IsSettled empty_db
unfolding find_balance outstanding_by
settled = record { consistent = record { ledger = tt; balanced = λ u. refl }; idle = λ u. refl }

process-IsSettled_example : IsSettled (process nan policy paid_event readings (calm empty_db)).1.db
process-IsSettled_example = process-IsSettled nan policy paid_event readings (calm empty_db) settled

-- A user with a paid plan.
abbrev pro_row : SubscriptionRow
pro_row = record free_row { plan_type = pro }

abbrev pro_db : Database
pro_db = record alice_db { subscriptions = pro_row ∷ [] }

subscription_canceled-downgrades_example :
    let (result, w) = handle_subscription_canceled nan policy paid_event readings (calm pro_db) in
    (result ≡ ok tt)
    × (w.db.subscriptions ≡ free_subscription "s3" "alice" 60 ∷ without pro_row (pro_row ∷ []))
    × (w.db.payments ≡ [])
    × (find_balance "alice" w.db.balances ≡ some (free_credits alice 61))
unfolding find_by_status find_subscription find_balance update_subscription
subscription_canceled-downgrades_example =
    subscription_canceled-downgrades nan policy "alice" paid_event readings pro_db pro_row alice
      (refl, refl) refl refl refl refl refl refl

payment_refunded-downgrades_example :
    let (result, w) = handle_payment_refunded nan policy paid_event readings (calm pro_db) in
    (result ≡ ok tt)
    × (w.db.subscriptions ≡ free_subscription "s3" "alice" 60 ∷ without pro_row (pro_row ∷ []))
    × (w.db.payments
        ≡ payments_after
            (extract_amount nan payload)
            (payment_of nan policy paid_event "alice" "s1" PaymentStatus.refunded
              "STRIPE:invoice.paid:evt_1-refund")
            [])
    × (find_balance "alice" w.db.balances ≡ some (free_credits alice 61))
unfolding find_by_status find_subscription find_balance update_subscription find_payment
payment_refunded-downgrades_example =
    payment_refunded-downgrades nan policy "alice" paid_event readings pro_db pro_row alice
      (refl, refl) refl refl refl refl refl refl refl
