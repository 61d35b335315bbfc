-- ===== src/Webhook/Payments.antt =====
-- What a payment's webhook does to the subscriptions of its user.
use graph_node_be.Credit.Repository.{refill_balance}
use graph_node_be.Subscription.Service.{duration_days}
use graph_node_be.Credit.Tables.{find_balance, find_balance-update_rows}
use graph_node_be.Billing.Types.{PaymentStatus}
use graph_node_be.Credit.Service.{refill}
use Prim.Native.String.{◌++◌}
use graph_node_be.Subscription.Repository.{
  find_by_user_id, create_payment, find_pending_by_user_id, find_by_id, update_status,
  find_active_by_user_id,
}
use graph_node_be.Common.{
  if◌then◌else◌, inr, inl, [], ◌∷◌, ◌≡◌, refl, ◌+◌, true, false, ◌&&◌, Option, none, some, String,
  List, Bool-cases, ltb,
}
use graph_node_be.Common.Int.{pos, ltb_ℤ, ℤ}
use graph_node_be.Common.Text.{◌==◌, eq_refl}
use graph_node_be.Billing.Types.{SubscriptionStatus}
use graph_node_be.Billing.Config.{
  billing_cycle_days, plan_credit_limits, BillingOperationPolicy, days_ms,
}
use graph_node_be.Store.Json.{Json, get}
use graph_node_be.Store.Rows.{
  CreditBalanceRow, PaymentHistoryRow, Database, SubscriptionRow, WebhookEventRow,
}
use graph_node_be.Store.Effects.{ok}
use graph_node_be.Credit.Sweep.{calm}
use graph_node_be.Subscription.Tables.{
  find_payment, find_by_status, find_subscription, first_with, subscriptions_of,
  update_subscription, status_eq,
}
use graph_node_be.Webhook.Payload.{extract_user_id, extract_amount}
use graph_node_be.Webhook.Processing.{
  record_amount, payment_of, Readings, handle_payment_completed, handle_payment_failed,
  handle_subscription_renewed, status_only,
}

-- The scan of all rows of a user finds what `findFirst` finds.
first_with-subscriptions_of :
    (s : SubscriptionStatus) (u : String) (rows : List SubscriptionRow)
    → first_with s (subscriptions_of u rows) ≡ find_by_status s u rows
unfolding first_with subscriptions_of find_by_status
first_with-subscriptions_of s u [] = refl
first_with-subscriptions_of s u (r ∷ rows) = elim (Bool-cases (r.user_id == u)) [
  | inl mine ↦ elim (Bool-cases (status_eq r.status s)) [
    | inl hit ↦ simp (mine, hit)
    | inr miss ↦ simp (mine, miss, first_with-subscriptions_of s u rows)
  ]
  | inr other ↦ simp (other, first_with-subscriptions_of s u rows)
]

-- The payload names the user `u`.
abbrev pub Names : String → WebhookEventRow → Type 0
Names u event = (get "userId" event.raw_payload ≡ some (Json.text u)) × ((u == "") ≡ false)

-- The payments after an amount was recorded as the row that `p` makes of it.
abbrev pub payments_after :
    Option ℤ → (ℤ → PaymentHistoryRow) → List PaymentHistoryRow → List PaymentHistoryRow
payments_after none p ps = ps
payments_after (some n) p ps = if ltb_ℤ (pos 0) n then p n ∷ ps else ps

module _ (convert : Json → Option ℤ) (policy : BillingOperationPolicy) where
  pub record_amount_lem :
      (amount : Option ℤ) (p : ℤ → PaymentHistoryRow) (d : Database)
      → ((n : ℤ) → find_payment (p n).idempotency_key d.payments ≡ none)
      → record_amount convert policy amount p (calm d)
        ≡ (ok tt, calm (record d { payments = payments_after amount p d.payments }))
  unfolding create_payment
  record_amount_lem none p d fresh = refl
  record_amount_lem (some n) p d fresh = elim (Bool-cases (ltb_ℤ (pos 0) n)) [
    | inl positive ↦ simp (positive, fresh n)
    | inr none_due ↦ simp none_due
  ]

  -- A failed payment for a user with an active subscription, under a policy with a grace period,
  -- and no database call failing: the subscription is CANCELED at once and its period ends when
  -- the grace period does, counted from the clock. The payment is recorded as FAILED where the
  -- amount is positive. Nothing else changes: the subscription is not EXPIRED, no FREE
  -- subscription is made, and the credits are not refilled. Conditions: the payload names the user
  -- under `userId`, the id of `s` identifies its row, and no payment has the key of the new one
  -- yet.
  pub payment_failed-grace :
      (u : String) (event : WebhookEventRow) (r : Readings) (d : Database) (s : SubscriptionRow)
      → Names u event
      → find_by_status SubscriptionStatus.active u d.subscriptions ≡ some s
      → find_subscription s.id d.subscriptions ≡ some s
      → find_payment r.new_key d.payments ≡ none
      → (policy.grace_enabled && ltb 0 policy.grace_days) ≡ true
      → handle_payment_failed convert policy event r (calm d) ≡ (
        ok tt,
        calm (record d {
          subscriptions =
              update_subscription
                (record {
                  id = s.id;
                  status = SubscriptionStatus.canceled;
                  canceled_at = some r.canceled_at;
                  current_period_end = some (r.grace_from + days_ms policy.grace_days);
                })
                d.subscriptions;
          payments =
              payments_after
                (extract_amount convert event.raw_payload)
                (payment_of convert policy event u s.id PaymentStatus.failed r.new_key)
                d.payments;
        }),
      )
  unfolding handle_payment_failed extract_user_id find_active_by_user_id update_status find_by_id
  payment_failed-grace u event r d s (named, full) active stored fresh grace =
      let paid =
        record_amount_lem (extract_amount convert event.raw_payload)
          (payment_of convert policy event u s.id PaymentStatus.failed r.new_key) d (λ n. fresh) in
      simp (named, full, active, paid, grace, stored)

  -- A completed payment for a user with a pending subscription `s` and a credit row, where no
  -- database call fails: the subscription becomes ACTIVE, a positive amount is recorded under the
  -- key of the event, and the credits are those of the plan of `s`, with no hold, for a cycle from
  -- the clock. Conditions: the payload names the user under `userId`, the id of `s` identifies its
  -- row, and no payment has the key of the new one yet.
  pub payment_completed-activates :
      (u : String) (event : WebhookEventRow) (r : Readings) (d : Database) (s : SubscriptionRow)
      (b : CreditBalanceRow)
      → Names u event
      → find_by_status SubscriptionStatus.pending u d.subscriptions ≡ some s
      → find_subscription s.id d.subscriptions ≡ some s
      → find_payment event.idempotency_key d.payments ≡ none
      → find_balance u d.balances ≡ some b
      → let (result, w) = handle_payment_completed convert policy event r (calm d) in
        (result ≡ ok tt)
        × (w.db.subscriptions
            ≡ update_subscription (status_only s.id SubscriptionStatus.active) d.subscriptions)
        × (w.db.payments
            ≡ payments_after
                (extract_amount convert event.raw_payload)
                (payment_of convert policy event u s.id PaymentStatus.success event.idempotency_key)
                d.payments)
        × (find_balance u w.db.balances
            ≡ some (record b {
              balance = pos (plan_credit_limits s.plan_type);
              hold_amount = pos 0;
              plan_type = s.plan_type;
              cycle_start = r.refilled;
              cycle_end = r.refilled + days_ms billing_cycle_days;
            }))
  unfolding handle_payment_completed extract_user_id find_pending_by_user_id update_status
      find_by_id refill refill_balance
  payment_completed-activates u event r d s b (named, full) pending_row stored fresh found =
      let d' = record d {
        subscriptions =
            update_subscription (status_only s.id SubscriptionStatus.active) d.subscriptions;
      } in
      let paid =
        record_amount_lem (extract_amount convert event.raw_payload)
          (payment_of convert policy event u s.id PaymentStatus.success event.idempotency_key) d'
          (λ n. fresh) in
      (
        simp (named, full, pending_row, paid, stored, found),
        simp (named, full, pending_row, paid, stored, found),
        simp (named, full, pending_row, paid, stored, found),
        simp (named, full, pending_row, paid, stored, found, find_balance-update_rows, eq_refl),
      )

  -- A completed payment for a user with an active subscription and none that is pending, where no
  -- database call fails, is taken for a renewal: the period of the subscription is extended by its
  -- cycle, whatever the event was, a positive amount is recorded, and the credits stay as they
  -- are. Conditions: the payload names the user under `userId`, the id of `s` identifies its row,
  -- and no payment has the key of the new one yet.
  pub payment_completed-extends :
      (u : String) (event : WebhookEventRow) (r : Readings) (d : Database) (s : SubscriptionRow)
      → Names u event
      → find_by_status SubscriptionStatus.pending u d.subscriptions ≡ none
      → find_by_status SubscriptionStatus.active u d.subscriptions ≡ some s
      → find_subscription s.id d.subscriptions ≡ some s
      → find_payment (event.idempotency_key ++ "-renew") d.payments ≡ none
      → handle_payment_completed convert policy event r (calm d) ≡ (
        ok tt,
        calm (record d {
          subscriptions =
              update_subscription
                (record {
                  id = s.id;
                  status = SubscriptionStatus.active;
                  canceled_at = none;
                  current_period_end =
                      some (s.current_period_end + days_ms (duration_days s.billing_cycle));
                })
                d.subscriptions;
          payments =
              payments_after
                (extract_amount convert event.raw_payload)
                (payment_of convert policy event u s.id PaymentStatus.success
                  (event.idempotency_key ++ "-renew"))
                d.payments;
        }),
      )
  unfolding handle_payment_completed handle_subscription_renewed extract_user_id
      find_pending_by_user_id find_active_by_user_id find_by_user_id update_status find_by_id
  payment_completed-extends u event r d s (named, full) none_pending active stored fresh =
      let paid =
        record_amount_lem (extract_amount convert event.raw_payload)
          (payment_of convert policy event u s.id PaymentStatus.success
            (event.idempotency_key ++ "-renew"))
          (record d {
            subscriptions =
                update_subscription
                  (record {
                    id = s.id;
                    status = SubscriptionStatus.active;
                    canceled_at = none;
                    current_period_end =
                        some (s.current_period_end + days_ms (duration_days s.billing_cycle));
                  })
                  d.subscriptions;
          })
          (λ n. fresh) in
      simp (named, full, none_pending, first_with-subscriptions_of, active, paid, stored)
