-- ===== src/Credit/Settlement.antt =====
-- `commitHold` and `rollbackHold`: what a settled task looks like, once and for all.
use graph_node_be.Billing.Types.{CreditFeature}
use graph_node_be.Common.Int.{le→not_ltb_ℤ, ◌≤ℤ◌, int_laws, ◌-ℤ◌, ◌+ℤ◌, ℤ}
use graph_node_be.Common.Text.{eq_refl, eq_iff}
use graph_node_be.Store.Rows.{CreditBalanceRow, Database, CreditTransactionRow}
use graph_node_be.Common.{
  refl, [], false, some, ℕ, inr, inl, Option-cases, List, ◌≡◌, Bool, true, String, arith,
}
use graph_node_be.Store.Effects.{roll_back, ok, World, Action}
use graph_node_be.Credit.Tables.{find_balance-update_rows, find_balance, find_hold, is_settled}
use graph_node_be.Credit.Repository.{
  available, hold_balance, rollback_tx, commit_tx, commit_hold, rollback_hold,
}
use graph_node_be.Credit.Workers.{Ending, committing, rolling_back}

-- The two methods.
abbrev pub settle_hold : Ending → String → Action Bool
settle_hold committing = commit_hold
settle_hold rolling_back = rollback_hold

pub settled_noop :
    (ending : Ending) (t : String) (w : World)
    → is_settled t w.db.transactions ≡ true
    → (settle_hold ending t w).1.db ≡ w.db
unfolding commit_hold rollback_hold
settled_noop committing t w h = ground arith
settled_noop rolling_back t w h = ground arith

commit_tx-settles :
    (t : String) (h : CreditTransactionRow) (d : Database)
    → (roll_back d (commit_tx t h d)).0 ≡ ok true
    → is_settled t (roll_back d (commit_tx t h d)).1.transactions ≡ true
unfolding commit_tx is_settled
commit_tx-settles t h d e = ground (arith, eq_iff t t)

rollback_tx-settles :
    (t : String) (h : CreditTransactionRow) (d : Database)
    → (roll_back d (rollback_tx t h d)).0 ≡ ok true
    → is_settled t (roll_back d (rollback_tx t h d)).1.transactions ≡ true
unfolding rollback_tx is_settled
rollback_tx-settles t h d e = ground (arith, eq_iff t t)

-- A call that reports success has settled its task.
pub settle_hold-settles :
    (ending : Ending) (t : String) (w : World)
    → (settle_hold ending t w).0 ≡ ok true
    → is_settled t (settle_hold ending t w).1.db.transactions ≡ true
unfolding commit_hold rollback_hold
settle_hold-settles committing t w e = elim (Option-cases (find_hold t w.db.transactions)) [
  | inl missing ↦ ground arith
  | inr (h, held) ↦ ground (arith, commit_tx-settles t h w.db)
]
settle_hold-settles rolling_back t w e = elim (Option-cases (find_hold t w.db.transactions)) [
  | inl missing ↦ ground arith
  | inr (h, held) ↦ ground (arith, rollback_tx-settles t h w.db)
]

-- After a `commitHold` or a `rollbackHold` that reported success, no later call of either for the
-- same task changes the database, whichever of its database calls fail: a queue message that is
-- delivered again is harmless, and a commit and a rollback do not both take effect.
pub settle_hold_once :
    (first second : Ending) (t : String) (w : World) (faults : List Bool)
    → (settle_hold first t w).0 ≡ ok true
    → let d = (settle_hold first t w).1.db in
      (settle_hold second t (record { db = d; faults = faults })).1.db ≡ d
settle_hold_once first second t w faults e =
    settled_noop second t (record { db = (settle_hold first t w).1.db; faults = faults })
      (settle_hold-settles first t w e)

-- Where the user's row stands after the user's HOLD was placed and then settled with no failing
-- call.
abbrev pub settled_row : Ending → ℤ → CreditBalanceRow → CreditBalanceRow
settled_row committing cost b = record b { balance = b.balance -ℤ cost }
settled_row rolling_back cost b = b

cancel : (x c : ℤ) → x +ℤ c -ℤ c ≡ x
cancel x c = omega int_laws

-- A HOLD of a new task, for a cost that user `u` has available, and then its settlement with no
-- failing call: the settlement succeeds; a commit has lowered the balance by the cost, a rollback
-- has given the row back as it was, and the held amount is in both cases what it was before.
pub hold_then_settle :
    (ending : Ending) (u : String) (cost : ℤ) (feature : CreditFeature) (t : String)
    (expires_at : ℕ) (d : Database) (b : CreditBalanceRow)
    → find_balance u d.balances ≡ some b
    → is_settled t d.transactions ≡ false
    → cost ≤ℤ available b
    → let d' = (hold_balance u cost feature t expires_at d).1 in
      let (r, w) = settle_hold ending t (record { db = d'; faults = [] }) in
      (r ≡ ok true) × (find_balance u w.db.balances ≡ some (settled_row ending cost b))
unfolding hold_balance commit_hold rollback_hold commit_tx rollback_tx find_hold is_settled
hold_then_settle committing u cost feature t expires_at d b found unsettled covers =
    simp
      (
        found,
        le→not_ltb_ℤ (available b) cost covers,
        eq_refl,
        unsettled,
        find_balance-update_rows,
        cancel,
      )
      (refl, refl)
hold_then_settle rolling_back u cost feature t expires_at d b found unsettled covers =
    simp
      (
        found,
        le→not_ltb_ℤ (available b) cost covers,
        eq_refl,
        unsettled,
        find_balance-update_rows,
        cancel,
      )
      (refl, refl)
