-- ===== src/Credit/Repository.antt =====
-- src/infra/repositories/CreditRepositoryPrisma.ts. A `prisma.$transaction` is one `Tx`: its body
-- runs under row locks at the isolation level Serializable, or it fails as a whole.
use graph_node_be.Common.{
  ℕ, Bool, true, false, ◌&&◌, Option, none, some, List, [], ◌∷◌, String, leb, if◌then◌else◌, length,
  take, drop, get_or,
}
use graph_node_be.Common.Int.{ℤ, pos, ◌+ℤ◌, ◌-ℤ◌, ltb_ℤ}
use graph_node_be.Common.Text.{◌==◌}
use graph_node_be.Billing.Types.{
  PlanType, CreditFeature, is_hold, refill, deduct, hold, commit, rollback, refund,
}
use graph_node_be.Store.Rows.{CreditBalanceRow, CreditTransactionRow, UsageLogRow, UsageStatus}
use graph_node_be.Store.Effects.{Tx, Action, database, pure, raise, gets, modify, call, ◌>>=◌, ◌>>◌}
use graph_node_be.Credit.Tables.{find_balance, update_rows, find_hold, is_settled}

-- `{ success, availableAfter }`
pub record Outcome : Type 0 where
  pub success : Bool
  pub available_after : ℤ

abbrev pub available : CreditBalanceRow → ℤ
available b = b.balance -ℤ b.hold_amount

-- ── single statements ──

unfoldable pub find_balance_by_user_id : String → Tx (Option CreditBalanceRow)
find_balance_by_user_id u = gets (λ d. find_balance u d.balances)

-- `update({ where: { userId } })` throws where there is no such row.
abbrev pub update_found :
    Option CreditBalanceRow → String → (CreditBalanceRow → CreditBalanceRow) → Tx (Unit {0})
update_found none u f = raise database
update_found (some b) u f = modify (λ d. record d { balances = update_rows u f d.balances })

abbrev pub update_balance : String → (CreditBalanceRow → CreditBalanceRow) → Tx (Unit {0})
update_balance u f d = update_found (find_balance u d.balances) u f d

abbrev pub insert_transaction : CreditTransactionRow → Tx (Unit {0})
insert_transaction r = modify (λ d. record d { transactions = r ∷ d.transactions })

create_row : Option CreditBalanceRow → CreditBalanceRow → Tx CreditBalanceRow
create_row (some b) row d = raise database d
create_row none row d = pure row (record d { balances = row ∷ d.balances })

-- `userId` is unique: a second row for a user is refused.
unfoldable pub create_balance :
    String → ℤ → PlanType → (cycle_start cycle_end : ℕ) → Tx CreditBalanceRow
unfolding create_row
create_balance u balance plan cycle_start cycle_end d =
    create_row (find_balance u d.balances)
      (record {
        user_id = u;
        balance = balance;
        hold_amount = pos 0;
        plan_type = plan;
        cycle_start = cycle_start;
        cycle_end = cycle_end;
      })
      d

-- `findFirst({ where: { taskId, type: HOLD } })`
unfoldable pub find_hold_by_task_id : String → Tx (Option CreditTransactionRow)
find_hold_by_task_id t = gets (λ d. find_hold t d.transactions)

-- `findFirst({ where: { taskId, type: { in: [COMMIT, ROLLBACK] } } })`, of which only the presence
-- is read.
abbrev pub find_settlement : String → Tx Bool
find_settlement t = gets (λ d. is_settled t d.transactions)

unfoldable pub create_usage_log :
    String → Option CreditFeature → Option String → ℤ → UsageStatus → Tx (Unit {0})
create_usage_log u feature task used status = modify (λ d. record d {
  usage_logs =
      record { user_id = u; feature = feature; task_id = task; credit_used = used; status = status }
      ∷ d.usage_logs;
})

-- ── transactions ──

abbrev pub refused : ℤ → Outcome
refused available_after = record { success = false; available_after = available_after }

abbrev pub granted : ℤ → Outcome
granted available_after = record { success = true; available_after = available_after }

deduct_found : Option CreditBalanceRow → String → ℤ → CreditFeature → Tx Outcome
deduct_found none u cost feature = pure (refused (pos 0))
deduct_found (some b) u cost feature =
    if ltb_ℤ (available b) cost then pure (refused (available b)) else do
      update_balance u (λ r. record r { balance = r.balance -ℤ cost })
      insert_transaction (record {
        user_id = u;
        type = deduct;
        feature = some feature;
        amount = cost;
        task_id = none;
        expires_at = none;
      })
      pure (granted (b.balance -ℤ cost -ℤ b.hold_amount))

unfoldable pub deduct_balance : String → ℤ → CreditFeature → Tx Outcome
unfolding deduct_found
deduct_balance u cost feature d = deduct_found (find_balance u d.balances) u cost feature d

hold_found : Option CreditBalanceRow → String → ℤ → CreditFeature → String → ℕ → Tx Outcome
hold_found none u cost feature t expires_at = pure (refused (pos 0))
hold_found (some b) u cost feature t expires_at =
    if ltb_ℤ (available b) cost then pure (refused (available b)) else do
      update_balance u (λ r. record r { hold_amount = r.hold_amount +ℤ cost })
      insert_transaction (record {
        user_id = u;
        type = hold;
        feature = some feature;
        amount = cost;
        task_id = some t;
        expires_at = some expires_at;
      })
      pure (granted (available b -ℤ cost))

unfoldable pub hold_balance : String → ℤ → CreditFeature → String → ℕ → Tx Outcome
unfolding hold_found
hold_balance u cost feature t expires_at d =
    hold_found (find_balance u d.balances) u cost feature t expires_at d

-- The transaction of `commitHold`, for a HOLD that was read before it began.
settle_commit : Bool → String → CreditTransactionRow → Tx Bool
settle_commit true t h = pure false
settle_commit false t h = do
  update_balance h.user_id
      (λ r. record r { balance = r.balance -ℤ h.amount; hold_amount = r.hold_amount -ℤ h.amount })
  insert_transaction (record {
    user_id = h.user_id;
    type = commit;
    feature = h.feature;
    amount = h.amount;
    task_id = some t;
    expires_at = none;
  })
  pure true

unfoldable pub commit_tx : String → CreditTransactionRow → Tx Bool
unfolding settle_commit
commit_tx t h d = settle_commit (is_settled t d.transactions) t h d

-- The transaction of `rollbackHold`.
settle_rollback : Bool → String → CreditTransactionRow → Tx Bool
settle_rollback true t h = pure false
settle_rollback false t h = do
  update_balance h.user_id (λ r. record r { hold_amount = r.hold_amount -ℤ h.amount })
  insert_transaction (record {
    user_id = h.user_id;
    type = rollback;
    feature = h.feature;
    amount = h.amount;
    task_id = some t;
    expires_at = none;
  })
  pure true

unfoldable pub rollback_tx : String → CreditTransactionRow → Tx Bool
unfolding settle_rollback
rollback_tx t h d = settle_rollback (is_settled t d.transactions) t h d

-- The two reads before the transaction are calls of their own: others may run in between.
abbrev pub unless_settled : Bool → Tx Bool → Action Bool
unless_settled true t = pure false
unless_settled false t = call t

abbrev pub with_hold :
    Option CreditTransactionRow → String → (CreditTransactionRow → Tx Bool) → Action Bool
with_hold none t settle = pure false
with_hold (some h) t settle = do
  already ← call (find_settlement t)
  unless_settled already (settle h)

unfoldable pub commit_hold : String → Action Bool
unfolding find_hold_by_task_id
commit_hold t = do h ← call (find_hold_by_task_id t); with_hold h t (commit_tx t)

unfoldable pub rollback_hold : String → Action Bool
unfolding find_hold_by_task_id
rollback_hold t = do h ← call (find_hold_by_task_id t); with_hold h t (rollback_tx t)

unfoldable pub refund_balance : String → ℤ → Tx (Unit {0})
refund_balance u amount = do
  update_balance u (λ r. record r { balance = r.balance +ℤ amount })
  insert_transaction (record {
    user_id = u;
    type = refund;
    feature = none;
    amount = amount;
    task_id = none;
    expires_at = none;
  })

-- `existing?.balance ?? 0`
abbrev pub balance_or_zero : Option CreditBalanceRow → ℤ
balance_or_zero none = pos 0
balance_or_zero (some b) = b.balance

unfoldable pub refill_balance : String → ℤ → PlanType → (cycle_start cycle_end : ℕ) → Tx (Unit {0})
refill_balance u plan_limit plan cycle_start cycle_end = do
  prev ← gets (λ d. balance_or_zero (find_balance u d.balances))
  update_balance u (λ r. record r {
    balance = plan_limit;
    hold_amount = pos 0;
    plan_type = plan;
    cycle_start = cycle_start;
    cycle_end = cycle_end;
  })
  insert_transaction (record {
    user_id = u;
    type = refill;
    feature = none;
    amount = plan_limit -ℤ prev;
    task_id = none;
    expires_at = none;
  })

-- ── queries over the tables ──

unfoldable pub expired_cycles : ℕ → List CreditBalanceRow → List (String × PlanType)
expired_cycles now [] = []
expired_cycles now (b ∷ bs) =
    let rest = expired_cycles now bs in
    if leb b.cycle_end now then (b.user_id, b.plan_type) ∷ rest else rest

unfoldable pub find_users_with_expired_cycle : ℕ → Tx (List (String × PlanType))
find_users_with_expired_cycle now = gets (λ d. expired_cycles now d.balances)

-- `expiresAt: { lte: now }`, which no row without a date meets
abbrev pub is_expired : ℕ → CreditTransactionRow → Bool
is_expired now r = elim r.expires_at [ none ↦ false | some e ↦ is_hold r.type && leb e now ]

unfoldable pub expired_holds : ℕ → List CreditTransactionRow → List CreditTransactionRow
expired_holds now [] = []
expired_holds now (r ∷ rs) =
    let rest = expired_holds now rs in if is_expired now r then r ∷ rest else rest

unfoldable pub find_expired_holds : ℕ → Tx (List CreditTransactionRow)
find_expired_holds now = gets (λ d. expired_holds now d.transactions)

unfoldable pub logs_of : String → List UsageLogRow → List UsageLogRow
logs_of u [] = []
logs_of u (l ∷ ls) = let rest = logs_of u ls in if l.user_id == u then l ∷ rest else rest

pub record UsagePage : Type 0 where
  pub items : List UsageLogRow
  pub total : ℕ

-- `orderBy: { createdAt: 'desc' }`: the table is kept newest first. The page and the count are two
-- statements of one `Promise.all`.
unfoldable pub find_usage_logs : String → Option ℕ → Option ℕ → Action UsagePage
find_usage_logs u limit offset = do
  rows ← call (gets (λ d. take (get_or limit 20) (drop (get_or offset 0) (logs_of u d.usage_logs))))
  count ← call (gets (λ d. length (logs_of u d.usage_logs)))
  pure (record { items = rows; total = count })
