-- ===== src/Credit/Refill.antt =====
-- `refillBalance`: the new cycle, and what it does to HOLDs that are still open.
use graph_node_be.Common.Text.{eq_refl}
use graph_node_be.Credit.Settlement.{settle_hold}
use graph_node_be.Store.Rows.{CreditTransactionRow, CreditBalanceRow, Database}
use graph_node_be.Billing.Types.{PlanType}
use graph_node_be.Credit.Tables.{find_balance-update_rows, find_balance, is_settled, find_hold}
use graph_node_be.Common.{refl, [], false, some, ℕ, String, ◌≡◌}
use graph_node_be.Common.Int.{ℤ, pos, ◌+ℤ◌, ◌-ℤ◌, int_laws}
use graph_node_be.Credit.Repository.{
  rollback_tx, commit_tx, rollback_hold, commit_hold, available, refill_balance,
}
use graph_node_be.Credit.Workers.{Ending, committing, rolling_back, after}

freed : (x c : ℤ) → x -ℤ (pos 0 -ℤ c) ≡ x +ℤ c
freed x c = omega int_laws

kept_whole : (x c : ℤ) → x -ℤ c -ℤ (pos 0 -ℤ c) ≡ x
kept_whole x c = omega int_laws

-- What user `u` has available after a refill to `limit` is followed by the settlement of a HOLD of
-- `amount` that was open when the refill came.
abbrev pub available_then : Ending → ℤ → ℤ → ℤ
available_then committing limit amount = limit
available_then rolling_back limit amount = limit +ℤ amount

-- A refill sets `holdAmount` to 0 and leaves the HOLDs open. When such a HOLD is settled later with
-- no failing call, `holdAmount` becomes minus the amount of the HOLD. After a rollback the user has
-- more available than the limit of the plan, by the amount of the HOLD; after a commit the user
-- still has the whole limit, so that the work was free.
pub refill_then_settle :
    (ending : Ending) (u : String) (limit : ℤ) (plan : PlanType) (cycle_start cycle_end : ℕ)
    (t : String) (d : Database) (b : CreditBalanceRow) (h : CreditTransactionRow)
    → find_balance u d.balances ≡ some b
    → find_hold t d.transactions ≡ some h
    → h.user_id ≡ u
    → is_settled t d.transactions ≡ false
    → let d' = after (refill_balance u limit plan cycle_start cycle_end) d in
      let w = (settle_hold ending t (record { db = d'; faults = [] })).1 in
      (b' : CreditBalanceRow) × (find_balance u w.db.balances ≡ some b')
      × (b'.hold_amount ≡ pos 0 -ℤ h.amount)
      × (available b' ≡ available_then ending limit h.amount)
unfolding refill_balance commit_hold rollback_hold commit_tx rollback_tx find_hold is_settled
    find_balance
refill_then_settle committing u limit plan cycle_start cycle_end t d b h found held owner
      unsettled =
    (
      record b {
        balance = limit -ℤ h.amount;
        hold_amount = pos 0 -ℤ h.amount;
        plan_type = plan;
        cycle_start = cycle_start;
        cycle_end = cycle_end;
      },
      simp (found, held, owner, unsettled, eq_refl, find_balance-update_rows),
      refl,
      kept_whole limit h.amount,
    )
refill_then_settle rolling_back u limit plan cycle_start cycle_end t d b h found held owner
      unsettled =
    (
      record b {
        balance = limit;
        hold_amount = pos 0 -ℤ h.amount;
        plan_type = plan;
        cycle_start = cycle_start;
        cycle_end = cycle_end;
      },
      simp (found, held, owner, unsettled, eq_refl, find_balance-update_rows),
      refl,
      freed limit h.amount,
    )
