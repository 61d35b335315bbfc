-- ===== src/Webhook/Paid.antt =====
-- An upgrade, from the request (src/core/services/SubscriptionService.ts) to the webhook of its payment
-- (src/core/services/WebhookProcessingService.ts).
use graph_node_be.Webhook.Upgrade.{requested, canceled_at, upgrade_plan-replaces}
use graph_node_be.Common.{
  arith, if◌then◌else◌, subst, sym, ◌&&◌, Bool-cases, inl, inr, ap, true, List, [], ◌≡◌, refl, ℕ,
  ◌+◌, false, Option, none, some, String, ◌∷◌,
}
use graph_node_be.Common.Int.{ℤ, pos}
use graph_node_be.Common.Text.{eq_refl, eq_iff, ◌==◌}
use graph_node_be.Billing.Types.{PlanType, free, plan_eq, BillingCycle, SubscriptionStatus}
use graph_node_be.Billing.Config.{
  BillingOperationPolicy, days_ms, billing_cycle_days, plan_credit_limits,
}
use graph_node_be.Store.Json.{Json}
use graph_node_be.Store.Rows.{Database, SubscriptionRow, WebhookEventRow, CreditBalanceRow}
use graph_node_be.Store.Effects.{ok}
use graph_node_be.Credit.Sweep.{calm}
use graph_node_be.Credit.Tables.{find_balance}
use graph_node_be.Subscription.Tables.{
  find_by_status, find_subscription, update_subscription, find_payment, status_eq,
}
use graph_node_be.Subscription.Service.{upgrade_plan}
use graph_node_be.Webhook.Payments.{Names, payment_completed-activates}
use graph_node_be.Webhook.Processing.{Readings, handle_payment_completed}

-- The ACTIVE subscriptions of `u`
unfoldable pub active_rows : String → List SubscriptionRow → List SubscriptionRow
active_rows u [] = []
active_rows u (r ∷ rows) =
    let rest = active_rows u rows in
    if r.user_id == u && status_eq r.status SubscriptionStatus.active then r ∷ rest else rest

find_by_status-active_rows :
    (u : String) (rows : List SubscriptionRow) (s : SubscriptionRow) (others : List SubscriptionRow)
    → active_rows u rows ≡ s ∷ others
    → find_by_status SubscriptionStatus.active u rows ≡ some s
unfolding active_rows find_by_status
find_by_status-active_rows u [] s others e = ground arith
find_by_status-active_rows u (r ∷ rows) s others e =
    elim (Bool-cases (r.user_id == u && status_eq r.status SubscriptionStatus.active)) [
      | inl hit ↦ ground arith
      | inr miss ↦ ground (arith, find_by_status-active_rows u rows s others (ground arith))
    ]

found-active :
    (u : String) (rows : List SubscriptionRow) (s : SubscriptionRow)
    → find_by_status SubscriptionStatus.active u rows ≡ some s
    → (s.user_id == u && status_eq s.status SubscriptionStatus.active) ≡ true
unfolding find_by_status
found-active u [] s e = ground arith
found-active u (r ∷ rows) s e =
    elim (Bool-cases (r.user_id == u && status_eq r.status SubscriptionStatus.active)) [
      | inl hit ↦
          let same : r ≡ s = ground arith in
          subst (λ x. (x.user_id == u && status_eq x.status SubscriptionStatus.active) ≡ true) same
            hit
      | inr miss ↦ found-active u rows s (ground arith)
    ]

-- Once the only one is canceled, there is none.
active_rows-canceled_at :
    (u : String) (at : ℕ) (rows : List SubscriptionRow) (s : SubscriptionRow)
    → active_rows u rows ≡ s ∷ []
    → find_subscription s.id rows ≡ some s
    → active_rows u (canceled_at s.id at rows) ≡ []
unfolding active_rows find_subscription update_subscription
active_rows-canceled_at u at [] s alone stored = ground arith
active_rows-canceled_at u at (r ∷ rows) s alone stored = elim (Bool-cases (r.id == s.id)) [
  | inl here ↦
      let same : r ≡ s = ground arith in
      let counts =
        subst (λ x. (x.user_id == u && status_eq x.status SubscriptionStatus.active) ≡ true)
          (sym same)
          (found-active u (r ∷ rows) s (find_by_status-active_rows u (r ∷ rows) s [] alone)) in
      let rest : active_rows u rows ≡ [] = ground arith in
      elim (Bool-cases (r.user_id == u)) [
        | inl mine ↦ simp (here, mine, rest)
        | inr other ↦ simp (here, other, rest)
      ]
  | inr away ↦ elim (Bool-cases (r.user_id == u && status_eq r.status SubscriptionStatus.active)) [
    | inl hit ↦
        let same : r ≡ s = ground arith in ground (arith, ap (λ x. x.id) same, eq_iff r.id s.id)
    | inr miss ↦
        simp (away, miss, active_rows-canceled_at u at rows s (ground arith) (ground arith))
  ]
]

module _ (convert : Json → Option ℤ) (policy : BillingOperationPolicy) where
  -- A user whose only ACTIVE subscription is `s` upgrades to another plan, not FREE, and the payment
  -- is then reported as completed, before any other request and with no call failing. Then the new
  -- subscription is the only ACTIVE one, and the user has the credits of the new plan, with no
  -- hold, for a cycle from the clock. Conditions: the id of `s` identifies its row, the new id is
  -- unused, the user has a credit row, the payload names the user under `userId`, and no payment is
  -- recorded under the key of the event yet.
  pub upgrade_then_pay :
      (id u : String) (plan : PlanType) (cycle : BillingCycle) (external : String)
      (method : Option String) (canceled now : ℕ) (d : Database) (s : SubscriptionRow)
      (event : WebhookEventRow) (r : Readings) (b : CreditBalanceRow)
      → plan_eq plan free ≡ false
      → active_rows u d.subscriptions ≡ s ∷ []
      → plan_eq s.plan_type plan ≡ false
      → find_subscription s.id d.subscriptions ≡ some s
      → find_subscription id d.subscriptions ≡ none
      → Names u event
      → find_payment event.idempotency_key d.payments ≡ none
      → find_balance u d.balances ≡ some b
      → let p = requested id u plan cycle external method now in
        let (asked, w1) = upgrade_plan id u plan cycle external method canceled now (calm d) in
        let (paid, w2) = handle_payment_completed convert policy event r w1 in
        (asked ≡ ok p)
        × (paid ≡ ok tt)
        × (active_rows u w2.db.subscriptions ≡ record p { status = SubscriptionStatus.active } ∷ [])
        × (find_balance u w2.db.balances
            ≡ some (record b {
              balance = pos (plan_credit_limits plan);
              hold_amount = pos 0;
              plan_type = plan;
              cycle_start = r.refilled;
              cycle_end = r.refilled + days_ms billing_cycle_days;
            }))
  unfolding find_by_status find_subscription update_subscription active_rows
  upgrade_then_pay id u plan cycle external method canceled now d s event r b paid only other stored
        fresh named unpaid found =
      let p = requested id u plan cycle external method now in
      let active = find_by_status-active_rows u d.subscriptions s [] only in
      let d' = record d { subscriptions = p ∷ canceled_at s.id canceled d.subscriptions } in
      let asked =
        upgrade_plan-replaces id u plan cycle external method canceled now d s paid active other
          stored fresh in
      let (done, subs, _, credits) =
        payment_completed-activates convert policy u event r d' p b named (simp (eq_refl u))
          (simp (eq_refl id)) unpaid found in
      let none_left = active_rows-canceled_at u canceled d.subscriptions s only stored in
      rw asked (refl, done, rw subs (simp (eq_refl u, eq_refl id, none_left)), credits)
