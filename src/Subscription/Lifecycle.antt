-- ===== src/Subscription/Lifecycle.antt =====
-- Cancellation and the FREE subscription of a new user.
use graph_node_be.Subscription.Repository.{
  find_by_id, create, update_status, find_active_by_user_id,
}
use graph_node_be.Common.{inr, inl, Option-cases, ◌≡◌, refl, ℕ, Option, none, some, String, ◌∷◌}
use graph_node_be.Common.Text.{eq_refl}
use graph_node_be.Billing.Types.{SubscriptionStatus}
use graph_node_be.Store.Rows.{Database, SubscriptionRow}
use graph_node_be.Store.Effects.{not_found, handle, Result, ok, err, World, upstream}
use graph_node_be.Credit.Sweep.{calm}
use graph_node_be.Credit.Tables.{find_balance}
use graph_node_be.Credit.Service.{ignore, refill}
use graph_node_be.Credit.Repository.{refill_balance}
use graph_node_be.Subscription.Tables.{find_by_status, find_subscription, update_subscription}
use graph_node_be.Subscription.Service.{
  ask_provider, cancel_subscription, cancel_update, create_free_subscription, free_subscription,
}

provider_lem : (r : Result (Unit {0})) (w : World) → handle (ignore tt) (r, w) ≡ (ok tt, w)
provider_lem (ok _) w = refl
provider_lem (err e) w = refl

ask_provider_lem :
    (a : Option (String → Result (Unit {0}))) (o : Option String) (w : World)
    → ask_provider a o w ≡ (ok tt, w)
ask_provider_lem none o w = refl
ask_provider_lem (some f) none w = refl
ask_provider_lem (some f) (some e) w = provider_lem (f e) w

-- What a cancellation comes to.
abbrev pub cancellation : Option SubscriptionRow → ℕ → Database → Result SubscriptionRow × World
cancellation none at d = (err not_found, calm d)
cancellation (some s) at d = (
  ok (record s { status = SubscriptionStatus.canceled; canceled_at = some at }),
  calm (record d { subscriptions = update_subscription (cancel_update s.id at) d.subscriptions }),
)

-- Where no database call fails and the id of the active subscription identifies its row,
-- `cancelSubscription` makes that row CANCELED at the reading of the clock, keeps its period, and
-- changes nothing else, whatever the payment provider answers. A user without an active
-- subscription gets NotFoundError, and nothing changes.
pub cancel_subscription-outcome :
    (adapters : String → Option (String → Result (Unit {0}))) (u provider : String) (at : ℕ)
    (d : Database)
    → ((s : SubscriptionRow)
        → find_by_status SubscriptionStatus.active u d.subscriptions ≡ some s
        → find_subscription s.id d.subscriptions ≡ some s)
    → cancel_subscription adapters u provider at (calm d)
      ≡ cancellation (find_by_status SubscriptionStatus.active u d.subscriptions) at d
unfolding cancel_subscription find_active_by_user_id update_status find_by_id
cancel_subscription-outcome adapters u provider at d stored =
    elim (Option-cases (find_by_status SubscriptionStatus.active u d.subscriptions)) [
      | inl missing ↦ simp missing
      | inr (s, active) ↦ simp (active, stored s active, ask_provider_lem)
    ]

-- For a user with neither an active subscription nor a credit row, `createFreeSubscription` throws
-- UpstreamError, since there is no row to refill, but the new subscription stays. Called again, it
-- finds that subscription, answers with it and does nothing: the credits are not refilled later.
-- The new id is taken to be unused.
pub create_free_subscription-unfunded :
    (id u : String) (now refilled now' refilled' : ℕ) (id' : String) (d : Database)
    → find_by_status SubscriptionStatus.active u d.subscriptions ≡ none
    → find_subscription id d.subscriptions ≡ none
    → find_balance u d.balances ≡ none
    → let s = free_subscription id u now in
      let d' = record d { subscriptions = s ∷ d.subscriptions } in
      (create_free_subscription id u now refilled (calm d) ≡ (err upstream, calm d'))
      × (create_free_subscription id' u now' refilled' (calm d') ≡ (ok s, calm d'))
unfolding create_free_subscription find_active_by_user_id create refill refill_balance
    find_by_status
create_free_subscription-unfunded id u now refilled now' refilled' id' d none_active fresh
      unfunded =
    (simp (none_active, fresh, unfunded), simp (eq_refl u))
