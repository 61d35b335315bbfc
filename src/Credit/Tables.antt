-- ===== src/Credit/Tables.antt =====
-- The queries of the two credit tables: a balance by its unique `userId`, and the HOLD and the
-- settlement of a task in the ledger. Where several rows fit, `findFirst` with no `orderBy` leaves
-- the choice to the database; here it is the newest, and nothing is proved of tasks with two HOLDs.
use graph_node_be.Common.{
  ◌≡◌, Bool, false, ◌&&◌, ◌||◌, Option, none, some, List, [], ◌∷◌, String, arith, if◌then◌else◌,
}
use graph_node_be.Common.Text.{◌==◌, eq_iff}
use graph_node_be.Billing.Types.{is_hold, is_settlement}
use graph_node_be.Store.Rows.{CreditBalanceRow, CreditTransactionRow}

unfoldable pub find_balance : String → List CreditBalanceRow → Option CreditBalanceRow
find_balance u [] = none
find_balance u (b ∷ bs) = if b.user_id == u then some b else find_balance u bs

-- `update({ where: { userId }, data })` for a row that is there. `f` leaves the key alone.
unfoldable pub update_rows :
    String → (CreditBalanceRow → CreditBalanceRow) → List CreditBalanceRow → List CreditBalanceRow
update_rows u f [] = []
update_rows u f (b ∷ bs) =
    if b.user_id == u then record (f b) { user_id = b.user_id } ∷ bs else b ∷ update_rows u f bs

abbrev pub has_task : String → CreditTransactionRow → Bool
has_task t r = elim r.task_id [ none ↦ false | some s ↦ s == t ]

abbrev pub is_hold_of : String → CreditTransactionRow → Bool
is_hold_of t r = has_task t r && is_hold r.type

abbrev pub settles : String → CreditTransactionRow → Bool
settles t r = has_task t r && is_settlement r.type

unfoldable pub find_hold : String → List CreditTransactionRow → Option CreditTransactionRow
find_hold t [] = none
find_hold t (r ∷ rs) = if is_hold_of t r then some r else find_hold t rs

unfoldable pub is_settled : String → List CreditTransactionRow → Bool
is_settled t [] = false
is_settled t (r ∷ rs) = settles t r || is_settled t rs

-- What a lookup finds after an update.
abbrev pub updated :
    (CreditBalanceRow → CreditBalanceRow) → Option CreditBalanceRow → Option CreditBalanceRow
updated f none = none
updated f (some b) = some (record (f b) { user_id = b.user_id })

pub find_balance-update_rows :
    (u v : String) (f : CreditBalanceRow → CreditBalanceRow) (bs : List CreditBalanceRow)
    → find_balance v (update_rows u f bs)
      ≡ (if u == v then updated f (find_balance v bs) else find_balance v bs)
unfolding find_balance update_rows
find_balance-update_rows u v f [] = ground arith
find_balance-update_rows u v f (b ∷ bs) =
    ground
      (arith, eq_iff u v, eq_iff b.user_id u, eq_iff b.user_id v, find_balance-update_rows u v f bs)

-- A row that is found has the key that was asked for.
pub find_balance-user_id :
    (u : String) (bs : List CreditBalanceRow) (b : CreditBalanceRow)
    → find_balance u bs ≡ some b
    → b.user_id ≡ u
unfolding find_balance
find_balance-user_id u [] b e = ground arith
find_balance-user_id u (c ∷ bs) b e =
    ground (arith, eq_iff c.user_id u, find_balance-user_id u bs b)
