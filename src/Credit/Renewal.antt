-- ===== src/Credit/Renewal.antt =====
-- `getBalance`: the balance that a user sees is of a cycle that has not ended.
use graph_node_be.Common.Text.{eq_refl}
use graph_node_be.Billing.Types.{free, PlanType, CreditTransactionType}
use graph_node_be.Store.Effects.{ok}
use graph_node_be.Common.{
  refl, ◌∷◌, none, ◌*◌, false, arith, ltb, Bool-cases, inr, inl, Option-cases, some, ◌≡◌,
}
use graph_node_be.Billing.Config.{plan_credit_limits, billing_cycle_days, days_ms}
use graph_node_be.Store.Rows.{CreditBalanceRow, Database}
use Prim.Native.Nat.{suc, ◌+◌, ◌≤◌, ℕ}
use Prim.Native.String.{String}
use graph_node_be.Credit.Tables.{find_balance-update_rows, find_balance}
use graph_node_be.Common.Int.{◌-ℤ◌, pos}
use graph_node_be.Credit.Repository.{refill_balance, create_balance, find_balance_by_user_id}
use graph_node_be.Credit.Service.{get_balance, ensure_balance, refill, to_dto}
use graph_node_be.Credit.Sweep.{calm}

not_over : (e c : ℕ) → c ≤ e → ltb e c ≡ false
not_over e c h = ground arith

-- A row at the start of a cycle: no HOLD, and all the credits of its plan
abbrev pub cycle_row : String → PlanType → ℕ → CreditBalanceRow
cycle_row u plan start = record {
  user_id = u;
  balance = pos (plan_credit_limits plan);
  hold_amount = pos 0;
  plan_type = plan;
  cycle_start = start;
  cycle_end = start + 30 * 86400000;
}

-- What `getBalance` does for the user's row, if there is one: the row `b` that it shows, and the
-- database that it leaves.
pub data Shows (u : String) (created checked refilled : ℕ) (d : Database) (b : CreditBalanceRow)
    (d' : Database) : Type 0 where
  -- there was none: a row of the FREE plan is added
  added :
      find_balance u d.balances ≡ none
      → b ≡ cycle_row u free created
      → d' ≡ record d { balances = b ∷ d.balances }
      → Shows u created checked refilled d b d'
  -- its cycle had ended: the row is refilled for its plan, with a REFILL row of the difference
  renewed :
      (old : CreditBalanceRow)
      → find_balance u d.balances ≡ some old
      → suc old.cycle_end ≤ checked
      → b ≡ record (cycle_row u old.plan_type refilled) { user_id = old.user_id }
      → d'.transactions
        ≡ record {
          user_id = u;
          type = CreditTransactionType.refill;
          feature = none;
          amount = b.balance -ℤ old.balance;
          task_id = none;
          expires_at = none;
        }
          ∷ d.transactions
      → Shows u created checked refilled d b d'
  -- its cycle had not ended: nothing is written
  kept :
      find_balance u d.balances ≡ some b
      → checked ≤ b.cycle_end
      → d' ≡ d
      → Shows u created checked refilled d b d'

-- When no call fails, `getBalance` answers with the row that the user has in the database
-- afterwards. Where there was none, that is a new row of the FREE plan. Where the cycle of the row
-- had ended before `checked`, it is the row refilled for its plan, for a cycle of 30 days, with a
-- REFILL row in the ledger. Otherwise it is the row as it was, and nothing is written. So the cycle
-- that is shown has not ended at `checked`, provided that the clock does not lag by a whole cycle
-- between its readings.
pub get_balance-current :
    (u : String) (created checked refilled : ℕ) (d : Database)
    → checked ≤ created + days_ms billing_cycle_days
    → checked ≤ refilled + days_ms billing_cycle_days
    → let (r, w) = get_balance u created checked refilled (calm d) in
      (b : CreditBalanceRow) × (r ≡ ok (to_dto b))
      × (find_balance u w.db.balances ≡ some b)
      × (checked ≤ b.cycle_end)
      × Shows u created checked refilled d b w.db
unfolding get_balance ensure_balance find_balance_by_user_id create_balance refill refill_balance
    find_balance
get_balance-current u created checked refilled d near after_refill =
    elim (Option-cases (find_balance u d.balances)) [
      | inl missing ↦
          let current = not_over (created + days_ms billing_cycle_days) checked near in
          (
            cycle_row u free created,
            simp (missing, current),
            simp (missing, current, eq_refl),
            near,
            Shows.added missing refl (simp (missing, current)),
          )
      | inr (b, found) ↦ elim (Bool-cases (ltb b.cycle_end checked)) [
        | inl over ↦ (
          record (cycle_row u b.plan_type refilled) { user_id = b.user_id },
          simp (found, over, find_balance-update_rows, eq_refl),
          simp (found, over, find_balance-update_rows, eq_refl),
          after_refill,
          Shows.renewed b found (ground arith) refl (simp (found, over)),
        )
        | inr current ↦ (
          b,
          simp (found, current),
          simp (found, current),
          ground arith,
          Shows.kept found (ground arith) (simp (found, current)),
        )
      ]
    ]
