-- ===== src/Tests/Credit.antt =====
-- The theorems on the credit system at concrete inputs.
use graph_node_be.Credit.CycleRefill.{IsRenewed, refill_all_active_subscribers-renews}
use graph_node_be.Credit.Service.{refill_all_active_subscribers}
use graph_node_be.Common.Text.{◌==◌}
use graph_node_be.Credit.Service.{deduct, hold, refund}
use graph_node_be.Credit.Guarantees.{service-IsConsistent}
use graph_node_be.Credit.Refill.{refill_then_settle}
use graph_node_be.Credit.Renewal.{get_balance-current, Shows}
use graph_node_be.Credit.Outcomes.{deduct_outcomes, Ended}
use graph_node_be.Credit.Settlement.{hold_then_settle, settle_hold_once, settled_row, settle_hold}
use graph_node_be.Credit.Ledger.{outstanding_by}
use graph_node_be.Credit.Repository.{
  available, deduct_balance, commit_hold, create_balance, refill_balance, hold_balance, commit_tx,
}
use graph_node_be.Credit.Service.{
  rollback_by_task_id, commit_by_task_id, to_dto, get_balance, expire_stale_holds,
}
use graph_node_be.Credit.Charges.{deduct_balance-IsCharge, hold_balance-IsCharge, IsCharge}
use graph_node_be.Common.{
  ◌∷◌, ◌&&◌, ◌∙◌, ap, sym, if◌then◌else◌, Option, arith, ◌≡◌, refl, Bool, true, false, none, some,
  String, [], ◌≤◌,
}
use graph_node_be.Common.Int.{◌+ℤ◌, int_laws, pos, ◌-ℤ◌}
use graph_node_be.Billing.Types.{free, CreditFeature}
use graph_node_be.Billing.Config.{feature_costs}
use graph_node_be.Store.Rows.{CreditTransactionRow, Database, CreditBalanceRow}
use graph_node_be.Store.Effects.{World, ok}
use graph_node_be.Credit.Tables.{find_balance, is_settled, find_hold}
use graph_node_be.Credit.Invariant.{IsConsistent}
use graph_node_be.Credit.Workers.{Reach, Step, after, committing, rolling_back, here, next}
use graph_node_be.Credit.Workers.Safety.{settlements, workers_safe}
use graph_node_be.Credit.Sweep.{expire_stale_holds-settles, HasOwners, calm}
use graph_node_be.Tests.Data.{alice, hold_t1, empty_db, alice_db, held_db, five_each}

abbrev with_alice : Database
with_alice = after (create_balance "alice" (pos 30) free 0 100) empty_db

abbrev with_hold : Database
with_hold = after (hold_balance "alice" (pos 5) CreditFeature.ai_chat "t1" 50) with_alice

abbrev after_commit : Database
after_commit = after (commit_tx "t1" hold_t1) with_hold

empty-IsConsistent : IsConsistent empty_db
unfolding find_balance outstanding_by
empty-IsConsistent = record { ledger = tt; balanced = λ u. refl }

run : Reach (record { db = empty_db; workers = [] }) (record { db = after_commit; workers = [] })
unfolding create_balance hold_balance find_hold is_settled find_balance ◌-ℤ◌
run =
    next
      (next
        (next (next here (Step.create "alice" (pos 30) free 0 100 (omega int_laws) refl)) (
          Step.hold "alice" (pos 5) CreditFeature.ai_chat "t1" 50 (refl, refl) (omega int_laws)
            refl))
        (Step.read committing "t1" hold_t1 refl refl refl))
      (Step.settle [] (record { ending = committing; task = "t1"; hold_tx = hold_t1 }) [] refl refl)

workers_safe_example :
    IsConsistent after_commit × ((t : String) → settlements t after_commit.transactions ≤ 1)
workers_safe_example = workers_safe empty-IsConsistent run

service-IsConsistent_example :
    let w = calm empty_db in
    IsConsistent (deduct feature_costs "bob" CreditFeature.ai_chat none 1 w).1.db
    × IsConsistent (hold feature_costs "bob" CreditFeature.ai_chat "t1" none 1 1 w).1.db
    × IsConsistent (commit_by_task_id "t1" w).1.db
    × IsConsistent (rollback_by_task_id "t1" w).1.db
    × IsConsistent (refund "bob" (pos 3) w).1.db
    × IsConsistent (expire_stale_holds 1 w).1.db
unfolding find_hold is_settled
service-IsConsistent_example =
    service-IsConsistent feature_costs "bob" "t1" CreditFeature.ai_chat none (pos 3) 1 1
      (calm empty_db) empty-IsConsistent (refl, refl) (omega int_laws)

hold_then_settle_example :
    let d = (hold_balance "alice" (pos 5) CreditFeature.ai_chat "t1" 50 alice_db).1 in
    let (r, w) = settle_hold committing "t1" (record { db = d; faults = [] }) in
    (r ≡ ok true)
    × (find_balance "alice" w.db.balances ≡ some (settled_row committing (pos 5) alice))
unfolding find_balance is_settled
hold_then_settle_example =
    hold_then_settle committing "alice" (pos 5) CreditFeature.ai_chat "t1" 50 alice_db alice refl
      refl (omega int_laws)

settle_hold_once_example :
    let d = (settle_hold committing "t1" (calm held_db)).1.db in
    (settle_hold rolling_back "t1" (record { db = d; faults = [] })).1.db ≡ d
unfolding commit_hold commit_tx find_hold is_settled find_balance
settle_hold_once_example = settle_hold_once committing rolling_back "t1" (calm held_db) [] refl

-- The usage log cannot be written.
abbrev no_log : World
no_log = record { db = alice_db; faults = false ∷ false ∷ true ∷ [] }

deduct_outcomes_example :
    let (r, w) = deduct five_each "alice" CreditFeature.ai_chat none 1 no_log in
    Ended "alice" (pos 5) CreditFeature.ai_chat alice alice_db (false ∷ false ∷ true ∷ []) r w.db
unfolding find_balance
deduct_outcomes_example =
    deduct_outcomes five_each "alice" CreditFeature.ai_chat none 1 no_log alice refl

deduct_balance-IsCharge_example :
    IsCharge "alice" "bob" true alice
      (record alice { balance = pos 25 })
      alice_db
      (deduct_balance "alice" (pos 5) CreditFeature.ai_chat alice_db)
unfolding find_balance ◌-ℤ◌ ◌+ℤ◌
deduct_balance-IsCharge_example =
    deduct_balance-IsCharge "alice" (pos 5) CreditFeature.ai_chat alice_db alice refl "bob" refl

hold_balance-IsCharge_example :
    IsCharge "alice" "bob" true alice
      (record alice { hold_amount = pos 5 })
      alice_db
      (hold_balance "alice" (pos 5) CreditFeature.ai_chat "t1" 50 alice_db)
unfolding find_balance ◌-ℤ◌ ◌+ℤ◌
hold_balance-IsCharge_example =
    hold_balance-IsCharge "alice" (pos 5) CreditFeature.ai_chat alice_db alice refl "t1" 50 "bob"
      refl

abbrev user_or : Option CreditTransactionRow → String
user_or none = "alice"
user_or (some h) = h.user_id

owner_of_if : (b : Bool) → user_or (if b then some hold_t1 else none) ≡ "alice"
owner_of_if true = refl
owner_of_if false = refl

held-HasOwners : HasOwners held_db
unfolding find_hold find_balance
held-HasOwners t h e = (
  record alice { hold_amount = pos 5 },
  rw (sym (ap user_or e) ∙ owner_of_if ("t1" == t && true)) refl,
)

expire_stale_holds-settles_example :
    ((expire_stale_holds 60 (calm held_db)).0 ≡ ok tt)
    × (is_settled "t1" (expire_stale_holds 60 (calm held_db)).1.db.transactions ≡ true)
unfolding find_hold
expire_stale_holds-settles_example =
    expire_stale_holds-settles 60 held_db "t1" hold_t1 held-HasOwners refl refl

get_balance-current_example :
    let (r, w) = get_balance "alice" 200 200 200 (calm alice_db) in
    (b : CreditBalanceRow) × (r ≡ ok (to_dto b))
    × (find_balance "alice" w.db.balances ≡ some b)
    × (200 ≤ b.cycle_end)
    × Shows "alice" 200 200 200 alice_db b w.db
get_balance-current_example =
    get_balance-current "alice" 200 200 200 alice_db (omega arith) (omega arith)

refill_then_settle_example :
    let d = after (refill_balance "alice" (pos 30) free 60 160) held_db in
    let w = (settle_hold rolling_back "t1" (record { db = d; faults = [] })).1 in
    (b : CreditBalanceRow) × (find_balance "alice" w.db.balances ≡ some b)
    × (b.hold_amount ≡ pos 0 -ℤ pos 5)
    × (available b ≡ pos 35)
unfolding find_balance find_hold is_settled ◌+ℤ◌
refill_then_settle_example =
    refill_then_settle rolling_back "alice" (pos 30) free 60 160 "t1" held_db
      (record alice { hold_amount = pos 5 }) hold_t1 refl refl refl refl

refill_all_active_subscribers-renews_example :
    let (r, w) = refill_all_active_subscribers 150 (λ i. 151) (calm alice_db) in
    (r ≡ ok tt) × IsRenewed "alice" 150 w.db
unfolding find_balance
refill_all_active_subscribers-renews_example =
    refill_all_active_subscribers-renews "alice" 150 (λ i. 151) alice_db alice (λ i. omega arith)
      refl refl
