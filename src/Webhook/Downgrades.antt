-- ===== src/Webhook/Downgrades.antt =====
-- How a paying user becomes a FREE one: a cancellation or a refund that the provider reports.
use graph_node_be.Credit.Repository.{refund_balance, refill_balance}
use graph_node_be.Subscription.Repository.{
  create, find_by_id, update_status, find_active_by_user_id,
}
use Prim.Native.String.{◌++◌}
use graph_node_be.Credit.Service.{refund}
use graph_node_be.Common.{
  ◌⊎◌, inl, inr, ◌≡◌, refl, ℕ, ◌+◌, false, Option, none, some, String, List, ◌∷◌,
}
use graph_node_be.Common.Int.{ℤ, pos}
use graph_node_be.Common.Text.{eq_refl}
use graph_node_be.Billing.Types.{free, plan_eq, SubscriptionStatus, PaymentStatus}
use graph_node_be.Billing.Config.{
  BillingOperationPolicy, CreditClawback, days_ms, billing_cycle_days, plan_credit_limits,
}
use graph_node_be.Store.Json.{Json}
use graph_node_be.Store.Rows.{Database, SubscriptionRow, WebhookEventRow, CreditBalanceRow}
use graph_node_be.Store.Effects.{pure, ok}
use graph_node_be.Credit.Sweep.{calm}
use graph_node_be.Credit.Tables.{find_balance, find_balance-update_rows}
use graph_node_be.Credit.Service.{refill}
use graph_node_be.Subscription.Tables.{
  find_subscription-update_subscription, find_by_status, find_subscription, update_subscription,
  find_payment, status_eq,
}
use graph_node_be.Subscription.Service.{free_subscription}
use graph_node_be.Webhook.Payload.{extract_user_id, extract_amount}
use graph_node_be.Webhook.Payments.{record_amount_lem, Names, payments_after}
use graph_node_be.Webhook.Processing.{
  payment_of, claw_back, create_free, Readings, handle_subscription_canceled,
  handle_payment_refunded, status_only,
}

-- The credits of a FREE plan, from the reading `now`.
abbrev pub free_credits : CreditBalanceRow → ℕ → CreditBalanceRow
free_credits b now = record b {
  balance = pos (plan_credit_limits free);
  hold_amount = pos 0;
  plan_type = free;
  cycle_start = now;
  cycle_end = now + days_ms billing_cycle_days;
}

-- The subscriptions with `s` EXPIRED.
abbrev pub without : SubscriptionRow → List SubscriptionRow → List SubscriptionRow
without s rows = update_subscription (status_only s.id SubscriptionStatus.expired) rows

claw_back_lem :
    (convert : Json → Option ℤ) (policy : BillingOperationPolicy) (c : CreditClawback) (u : String)
    → (claw_back convert policy c u ≡ refund u (pos 0)) ⊎ (claw_back convert policy c u ≡ pure tt)
claw_back_lem convert policy CreditClawback.all_granted_credits u = inl refl
claw_back_lem convert policy CreditClawback.keep_credits u = inr refl
claw_back_lem convert policy CreditClawback.refund_period_credits u = inr refl

module _ (convert : Json → Option ℤ) (policy : BillingOperationPolicy) (u : String)
    (event : WebhookEventRow) (r : Readings) (d : Database) (s : SubscriptionRow)
    (b : CreditBalanceRow) (named : Names u event)
    (active : find_by_status SubscriptionStatus.active u d.subscriptions ≡ some s)
    (stored : find_subscription s.id d.subscriptions ≡ some s)
    (alone : find_by_status SubscriptionStatus.active u (without s d.subscriptions) ≡ none)
    (fresh : find_subscription r.new_id d.subscriptions ≡ none)
    (found : find_balance u d.balances ≡ some b) where
  -- When the provider reports the cancellation of a user's only ACTIVE subscription, and no
  -- database call fails, that subscription is EXPIRED, a new FREE one is ACTIVE, and the credits
  -- are those of the FREE plan for a cycle from the clock. Conditions: the payload names the user
  -- under `userId`, the id of `s` identifies its row, the new id is unused, and the user has a
  -- credit row.
  pub subscription_canceled-downgrades :
      status_eq s.status SubscriptionStatus.expired ≡ false
      → let (result, w) = handle_subscription_canceled convert policy event r (calm d) in
        (result ≡ ok tt)
        × (w.db.subscriptions
            ≡ free_subscription r.new_id u r.free_start ∷ without s d.subscriptions)
        × (w.db.payments ≡ d.payments)
        × (find_balance u w.db.balances ≡ some (free_credits b r.refilled))
  unfolding handle_subscription_canceled extract_user_id find_active_by_user_id update_status
      find_by_id create_free create refill refill_balance
  subscription_canceled-downgrades live =
      let unused =
        find_subscription-update_subscription r.new_id (status_only s.id SubscriptionStatus.expired)
          d.subscriptions fresh in
      (
        simp (named.0, named.1, active, live, stored, alone, unused, found),
        simp (named.0, named.1, active, live, stored, alone, unused, found),
        simp (named.0, named.1, active, live, stored, alone, unused, found),
        simp (
          named.0, named.1, active, live, stored, alone, unused, found, find_balance-update_rows,
          eq_refl,
        ),
      )

  -- When the provider reports the refund of a user's only ACTIVE subscription, of a paid plan, and
  -- no database call fails, that subscription is EXPIRED, a positive amount is recorded as
  -- REFUNDED, a new FREE subscription is ACTIVE, and the credits are those of the FREE plan for a
  -- cycle from the clock, the same for every policy on the credits of a refunded plan. Conditions:
  -- the payload names the user under `userId`, the id of `s` identifies its row, the new id is
  -- unused, and the user has a credit row; no payment has the key of the new one yet.
  pub payment_refunded-downgrades :
      plan_eq s.plan_type free ≡ false
      → find_payment (event.idempotency_key ++ "-refund") d.payments ≡ none
      → let (result, w) = handle_payment_refunded convert policy event r (calm d) in
        (result ≡ ok tt)
        × (w.db.subscriptions
            ≡ free_subscription r.new_id u r.free_start ∷ without s d.subscriptions)
        × (w.db.payments
            ≡ payments_after
                (extract_amount convert event.raw_payload)
                (payment_of convert policy event u s.id PaymentStatus.refunded
                  (event.idempotency_key ++ "-refund"))
                d.payments)
        × (find_balance u w.db.balances ≡ some (free_credits b r.refilled))
  unfolding handle_payment_refunded extract_user_id find_active_by_user_id update_status find_by_id
      create_free create refill refill_balance refund refund_balance
  payment_refunded-downgrades bought unpaid =
      let unused =
        find_subscription-update_subscription r.new_id (status_only s.id SubscriptionStatus.expired)
          d.subscriptions fresh in
      let paid =
        record_amount_lem convert policy (extract_amount convert event.raw_payload)
          (payment_of convert policy event u s.id PaymentStatus.refunded
            (event.idempotency_key ++ "-refund"))
          (record d { subscriptions = without s d.subscriptions }) (λ n. unpaid) in
      elim (claw_back_lem convert policy policy.refund_credit_clawback u) [
        | inl all ↦ (
          simp (
            named.0, named.1, active, bought, stored, paid, alone, unused, all, found,
            find_balance-update_rows, eq_refl,
          ),
          simp (
            named.0, named.1, active, bought, stored, paid, alone, unused, all, found,
            find_balance-update_rows, eq_refl,
          ),
          simp (
            named.0, named.1, active, bought, stored, paid, alone, unused, all, found,
            find_balance-update_rows, eq_refl,
          ),
          simp (
            named.0, named.1, active, bought, stored, paid, alone, unused, all, found,
            find_balance-update_rows, eq_refl,
          ),
        )
        | inr some_left ↦ (
          simp (named.0, named.1, active, bought, stored, paid, alone, unused, some_left, found),
          simp (named.0, named.1, active, bought, stored, paid, alone, unused, some_left, found),
          simp (named.0, named.1, active, bought, stored, paid, alone, unused, some_left, found),
          simp (
            named.0, named.1, active, bought, stored, paid, alone, unused, some_left, found,
            find_balance-update_rows, eq_refl,
          ),
        )
      ]
