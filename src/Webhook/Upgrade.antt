-- ===== src/Webhook/Upgrade.antt =====
-- The request of an upgrade: `upgradePlan` of src/core/services/SubscriptionService.ts.
use graph_node_be.Subscription.Repository.{
  create, find_by_id, update_status, find_active_by_user_id,
}
use graph_node_be.Common.{
  subst, sym, Bool-cases, Option-cases, inl, inr, true, List, ◌*◌, ◌≡◌, refl, ℕ, ◌+◌, false, Option,
  none, some, String, ◌∷◌,
}
use graph_node_be.Billing.Types.{
  SubscriptionSource, PlanType, free, plan_eq, BillingCycle, SubscriptionStatus,
}
use graph_node_be.Store.Rows.{Database, SubscriptionRow}
use graph_node_be.Store.Effects.{ok, err, Result, validation, conflict}
use graph_node_be.Credit.Sweep.{calm}
use graph_node_be.Subscription.Tables.{
  find_subscription-update_subscription, find_by_status, find_subscription, update_subscription,
}
use graph_node_be.Subscription.Service.{upgrade_plan, pending_subscription, cancel_update}

-- The subscription that an upgrade asks for: PENDING, paid, from the clock on, for 365 days where it
-- is paid by the year and for 30 days where it is paid by the month.
abbrev pub requested :
    String → String → PlanType → BillingCycle → String → Option String → ℕ → SubscriptionRow
requested id u plan cycle external method now = record {
  id = id;
  user_id = u;
  plan_type = plan;
  status = SubscriptionStatus.pending;
  source = SubscriptionSource.payment;
  billing_cycle = some cycle;
  current_period_start = now;
  current_period_end =
      now + (elim cycle [ BillingCycle.yearly ↦ 365 | BillingCycle.monthly ↦ 30 ]) * 86400000;
  granted_until = none;
  external_subscription_id = some external;
  payment_method_id = method;
  canceled_at = none;
}

-- The rows with that of `id` CANCELED at `at`, its period kept
abbrev pub canceled_at : String → ℕ → List SubscriptionRow → List SubscriptionRow
canceled_at id at rows =
    update_subscription
      (record {
        id = id;
        status = SubscriptionStatus.canceled;
        canceled_at = some at;
        current_period_end = none;
      })
      rows

-- How an upgrade ends for a user whose ACTIVE subscription is `current`, if there is one; `p` is the
-- subscription that it asks for.
pub data Upgraded (p : SubscriptionRow) (canceled : ℕ) (current : Option SubscriptionRow)
    (d : Database) (r : Result SubscriptionRow) (d' : Database) : Type 0 where
  -- to FREE: refused
  to_free :
      plan_eq p.plan_type free ≡ true
      → r ≡ err validation
      → d' ≡ d
      → Upgraded p canceled current d r d'
  -- to the plan that the user has: refused
  same_plan :
      plan_eq p.plan_type free ≡ false
      → (s : SubscriptionRow) → current ≡ some s
      → plan_eq s.plan_type p.plan_type ≡ true
      → r ≡ err conflict
      → d' ≡ d
      → Upgraded p canceled current d r d'
  -- with no ACTIVE subscription
  first :
      plan_eq p.plan_type free ≡ false
      → current ≡ none
      → r ≡ ok p
      → d' ≡ record d { subscriptions = p ∷ d.subscriptions }
      → Upgraded p canceled current d r d'
  -- from another plan
  replaced :
      plan_eq p.plan_type free ≡ false
      → (s : SubscriptionRow) → current ≡ some s
      → plan_eq s.plan_type p.plan_type ≡ false
      → r ≡ ok p
      → d' ≡ record d { subscriptions = p ∷ canceled_at s.id canceled d.subscriptions }
      → Upgraded p canceled current d r d'

requested_same :
    (id u : String) (plan : PlanType) (cycle : BillingCycle) (external : String)
    (method : Option String) (now : ℕ)
    → pending_subscription id u plan cycle external method now
      ≡ requested id u plan cycle external method now
requested_same id u plan BillingCycle.yearly external method now = refl
requested_same id u plan BillingCycle.monthly external method now = refl

-- From a plan to another that is paid.
pub upgrade_plan-replaces :
    (id u : String) (plan : PlanType) (cycle : BillingCycle) (external : String)
    (method : Option String) (canceled now : ℕ) (d : Database) (s : SubscriptionRow)
    → plan_eq plan free ≡ false
    → find_by_status SubscriptionStatus.active u d.subscriptions ≡ some s
    → plan_eq s.plan_type plan ≡ false
    → find_subscription s.id d.subscriptions ≡ some s
    → find_subscription id d.subscriptions ≡ none
    → let p = requested id u plan cycle external method now in
      upgrade_plan id u plan cycle external method canceled now (calm d)
      ≡ (ok p, calm (record d { subscriptions = p ∷ canceled_at s.id canceled d.subscriptions }))
unfolding upgrade_plan find_active_by_user_id update_status find_by_id create
upgrade_plan-replaces id u plan cycle external method canceled now d s paid active other stored
      fresh =
    let unused =
      find_subscription-update_subscription id (cancel_update s.id canceled) d.subscriptions
        fresh in
    rw (sym (requested_same id u plan cycle external method now))
      (simp (paid, active, other, stored, unused))

-- `upgradePlan`, where no database call fails. It throws ValidationError for the FREE plan and
-- ConflictError for the plan of the user's ACTIVE subscription, with nothing written. Otherwise it
-- answers with a new PENDING subscription of the plan, of 365 days where it is paid by the year and
-- of 30 days where it is paid by the month; the ACTIVE subscription, if there is one, is CANCELED at
-- the reading of the clock and keeps its period, and nothing else is written. Conditions: the id of
-- the ACTIVE subscription identifies its row, and the new id is unused.
pub upgrade_plan-outcome :
    (id u : String) (plan : PlanType) (cycle : BillingCycle) (external : String)
    (method : Option String) (canceled now : ℕ) (d : Database)
    → ((s : SubscriptionRow)
        → find_by_status SubscriptionStatus.active u d.subscriptions ≡ some s
        → find_subscription s.id d.subscriptions ≡ some s)
    → find_subscription id d.subscriptions ≡ none
    → let (r, w) = upgrade_plan id u plan cycle external method canceled now (calm d) in
      Upgraded
        (requested id u plan cycle external method now)
        canceled
        (find_by_status SubscriptionStatus.active u d.subscriptions)
        d
        r
        w.db
unfolding upgrade_plan find_active_by_user_id update_status find_by_id create
upgrade_plan-outcome id u plan cycle external method canceled now d stored fresh =
    let (r, w) = upgrade_plan id u plan cycle external method canceled now (calm d) in
    let current = find_by_status SubscriptionStatus.active u d.subscriptions in
    subst (λ p. Upgraded p canceled current d r w.db)
      (requested_same id u plan cycle external method now)
      (elim (Bool-cases (plan_eq plan free)) [
        | inl is_free ↦ Upgraded.to_free is_free (simp is_free) (simp is_free)
        | inr paid ↦ elim (Option-cases current) [
          | inl missing ↦
              Upgraded.first paid missing (simp (paid, missing, fresh))
                (simp (paid, missing, fresh))
          | inr (s, active) ↦ elim (Bool-cases (plan_eq s.plan_type plan)) [
            | inl same ↦
                Upgraded.same_plan paid s active same (simp (paid, active, same))
                  (simp (paid, active, same))
            | inr other ↦
                let unused =
                  find_subscription-update_subscription id (cancel_update s.id canceled)
                    d.subscriptions fresh in
                let calm_row = stored s active in
                Upgraded.replaced paid s active other (simp (paid, active, other, calm_row, unused))
                  (simp (paid, active, other, calm_row, unused))
          ]
        ]
      ])
