-- ===== src/Credit/Ledger.antt =====
-- What the ledger of credit transactions says: the amount that a user's unsettled HOLDs keep back,
-- and the shape that every operation keeps.
pub mod Sums
pub mod Rows
use graph_node_be.Common.{
  ◌≡◌, Bool, true, false, not, ◌&&◌, Option, none, some, List, [], ◌∷◌, String, if◌then◌else◌,
}
use graph_node_be.Common.Int.{ℤ, pos, ◌+ℤ◌, ◌≤ℤ◌}
use graph_node_be.Common.Text.{◌==◌}
use graph_node_be.Billing.Types.{is_hold, is_settlement}
use graph_node_be.Store.Rows.{CreditTransactionRow}
use graph_node_be.Credit.Tables.{has_task, find_hold, is_settled}

-- What one row keeps back of the credits of `u`, where `settled` tells the settled tasks.
unfoldable pub kept_back : (String → Bool) → String → CreditTransactionRow → ℤ
kept_back settled u r = elim r.task_id [
  | none ↦ pos 0
  | some t ↦ if is_hold r.type && r.user_id == u && not (settled t) then r.amount else pos 0
]

unfoldable pub outstanding_by : (String → Bool) → String → List CreditTransactionRow → ℤ
outstanding_by settled u [] = pos 0
outstanding_by settled u (r ∷ rs) = kept_back settled u r +ℤ outstanding_by settled u rs

-- The credits of `u` that unsettled HOLDs keep back.
abbrev pub outstanding : String → List CreditTransactionRow → ℤ
outstanding u rs = outstanding_by (λ t. is_settled t rs) u rs

-- A new row beside the older ones: a HOLD keeps back no negative amount, and is the first of its
-- task; a task is settled once.
pub record IsEntry (r : CreditTransactionRow) (rs : List CreditTransactionRow) : Type 0 where
  pub amount_nonneg : is_hold r.type ≡ true → pos 0 ≤ℤ r.amount
  pub first_hold : (t : String) → has_task t r && is_hold r.type ≡ true → find_hold t rs ≡ none
  pub first_settlement :
      (t : String) → has_task t r && is_settlement r.type ≡ true → is_settled t rs ≡ false

abbrev pub IsLedger : List CreditTransactionRow → Type 0
IsLedger [] = Unit
IsLedger (r ∷ rs) = IsEntry r rs × IsLedger rs
